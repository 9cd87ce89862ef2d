-- ===== src/Unikernels/Masks.antt =====
-- pkg/unikontainers/unikernels/utils.go: subnetMaskToCIDR.
use urunc.Prelude.{
  ℕ, zero, suc, ◌+◌, ◌/◌, ◌%◌, ◌*◌, ◌≤◌, String, ◌<>◌, Bool, true, false, none, some, List, [], ◌∷◌,
  Result, ok, err, ◌>>=◌, OnOk, OnOk->>=, OnOk-map, ◌≡◌, refl, arith, leb, if◌then◌else◌,
  Option-cases, Bool-cases, inl, inr, eqb, ◌<◌, ◌-◌, ◌^◌, ◌&&◌, length,
}
use urunc.Prelude.Text.{split}
use urunc.Prelude.Strconv.{pos, negsuc, atoi, format_uint}

pub data MaskError : Type 0 where
  invalid_format : MaskError
  invalid_value : String → MaskError

-- The ones among the lowest `n` bits.
abbrev pub ones : ℕ → ℕ → ℕ
ones zero v = 0
ones (suc n) v = v % 2 + ones n (v / 2)

-- The ones of a part of the mask.
unfoldable pub part_ones : String → Result MaskError ℕ
part_ones part = elim (atoi part) [
  | none ↦ err (invalid_value part)
  | some (negsuc n) ↦ err (invalid_value part)
  | some (pos v) ↦ if leb v 255 then ok (ones 8 v) else err (invalid_value part)
]

-- The loop of `subnetMaskToCIDR` over the parts.
unfoldable pub sum_ones : ℕ → List String → Result MaskError ℕ
sum_ones cidr [] = ok cidr
sum_ones cidr (part ∷ parts) = part_ones part >>= λ n. sum_ones (cidr + n) parts

abbrev dot : ℕ
dot = b'.'

-- `len(maskParts) != 4`
abbrev of_parts : List String → Result MaskError ℕ
of_parts (a ∷ b ∷ c ∷ d ∷ []) = sum_ones 0 (a ∷ b ∷ c ∷ d ∷ [])
of_parts _ = err invalid_format

-- `subnetMaskToCIDR`
unfoldable pub subnet_mask_to_cidr : String → Result MaskError ℕ
subnet_mask_to_cidr subnet_mask = of_parts (split dot subnet_mask)

part_ones_bound : (part : String) → OnOk (λ n. n ≤ 8) (part_ones part)
unfolding part_ones
part_ones_bound part = elim (Option-cases (atoi part)) [
  | inl e ↦ rw (e, OnOk) tt
  | inr (negsuc n, e) ↦ rw (e, OnOk) tt
  | inr (pos v, e) ↦
      rw (e, OnOk)
        (elim (Bool-cases (leb v 255)) [
          | inl y ↦ rw (y, OnOk) (omega arith)
          | inr n ↦ rw (n, OnOk) tt
        ])
]

sum_ones_bound :
    (cidr : ℕ) (parts : List String) → OnOk (λ n. n ≤ cidr + 8 * length parts) (sum_ones cidr parts)
unfolding sum_ones
sum_ones_bound cidr [] = omega arith
sum_ones_bound cidr (part ∷ parts) =
    OnOk->>= (λ n. n ≤ 8) (λ n. n ≤ cidr + 8 * length (part ∷ parts)) (part_ones part)
      (λ n. sum_ones (cidr + n) parts) (part_ones_bound part)
      (λ n k.
        OnOk-map (λ m. m ≤ cidr + n + 8 * length parts) _ (sum_ones (cidr + n) parts)
          (λ m l. omega (arith, k, l)) (sum_ones_bound (cidr + n) parts))

subnet_mask_to_cidr_bound :
    (subnet_mask : String) → OnOk (λ n. n ≤ 32) (subnet_mask_to_cidr subnet_mask)
unfolding subnet_mask_to_cidr split sum_ones part_ones atoi
subnet_mask_to_cidr_bound subnet_mask =
    elim (split dot subnet_mask) as (λ parts. OnOk (λ n. n ≤ 32) (of_parts parts)) [
      | [] ↦ tt
      | a ∷ [] ↦ tt
      | a ∷ b ∷ [] ↦ tt
      | a ∷ b ∷ c ∷ [] ↦ tt
      | a ∷ b ∷ c ∷ d ∷ [] ↦ sum_ones_bound 0 (a ∷ b ∷ c ∷ d ∷ [])
      | a ∷ b ∷ c ∷ d ∷ e ∷ rest ↦ tt
    ]

-- The part of a mask for as many ones.
abbrev octet : ℕ → ℕ
octet p = if leb 8 p then 255 else 256 - 2 ^ (8 - p)

-- The mask of a prefix, in dotted decimal.
abbrev pub mask_of : ℕ → String
mask_of p =
    format_uint (octet p)
    <> ("."
        <> (format_uint (octet (p - 8))
            <> ("." <> (format_uint (octet (p - 16)) <> ("." <> format_uint (octet (p - 24)))))))

-- Every number below the bound passes the test.
all_below : ℕ → (ℕ → Bool) → Bool
all_below zero test = true
all_below (suc n) test = test n && all_below n test

all_below-each : (n : ℕ) (test : ℕ → Bool) (k : ℕ) → all_below n test ≡ true → k < n → test k ≡ true
unfolding all_below
all_below-each zero test k h lt = absurd (omega arith)
all_below-each (suc n) test k h lt = ground (arith, all_below-each n test k)

abbrev gives : ℕ → Result MaskError ℕ → Bool
gives p (ok n) = eqb n p
gives p (err e) = false

gives-ok : (p : ℕ) (r : Result MaskError ℕ) → gives p r ≡ true → r ≡ ok p
gives-ok p (ok n) h = ground arith
gives-ok p (err e) h = cc

prefixes : all_below 33 (λ p. gives p (subnet_mask_to_cidr (mask_of p))) ≡ true
unfolding all_below subnet_mask_to_cidr split sum_ones part_ones atoi format_uint
prefixes = refl

-- subnetMaskToCIDR gives back the length of every prefix from 0 to 32 from its mask in dotted
-- decimal, and what it gives for any text is at most 32.
pub subnet_mask_to_cidr-mask_of :
    (p : ℕ) (subnet_mask : String)
    → p ≤ 32
    → (subnet_mask_to_cidr (mask_of p) ≡ ok p)
      × OnOk (λ n. n ≤ 32) (subnet_mask_to_cidr subnet_mask)
subnet_mask_to_cidr-mask_of p subnet_mask h = (
  gives-ok p _ (all_below-each 33 _ p prefixes (omega arith)),
  subnet_mask_to_cidr_bound subnet_mask,
)

mask_tests :
    (subnet_mask_to_cidr "255.255.240.0" ≡ ok 20)
    × (subnet_mask_to_cidr "255.0.255.0" ≡ ok 16)
    × (subnet_mask_to_cidr "255.255.0" ≡ err invalid_format)
    × (subnet_mask_to_cidr "255.255.256.0" ≡ err (invalid_value "256"))
unfolding subnet_mask_to_cidr split sum_ones part_ones atoi
mask_tests = (refl, refl, refl, refl)
