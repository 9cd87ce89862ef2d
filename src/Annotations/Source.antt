-- ===== src/Annotations/Source.antt =====
-- Where a configuration comes from: what is certain of any that is accepted.
use urunc.Prelude.{
  String, ◌==◌, eq_iff, Option, ◌≡◌, refl, ◌⊎◌, inl, inr, arith, if◌then◌else◌, Result, ok, err,
  Option-cases, Result-cases, ◌∙◌,
}
use urunc.Prelude.Map.{Map, get}
use urunc.Prelude.Filepath.{is_abs, join_paths}
use urunc.Annotations.{
  UnikernelConfig, AnnotError, annot_v_accel, annot_rpc_address, annot_hyperlight_ports,
  not_unikernel, unsafe_root, get_config_from_spec, decode, get_unikernel_config, validate,
}

validate_moved :
    (c : UnikernelConfig) (a b p : String)
    → validate (record c { v_accel = a; rpc_address = b; hyperlight_ports = p }) ≡ validate c
unfolding validate
validate_moved c a b p = refl

spec_fields :
    (a : Map String)
    → ((get_config_from_spec a).v_accel ≡ get a annot_v_accel)
      × ((get_config_from_spec a).rpc_address ≡ get a annot_rpc_address)
      × ((get_config_from_spec a).hyperlight_ports ≡ get a annot_hyperlight_ports)
unfolding get_config_from_spec
spec_fields a = (refl, refl, refl)

module _ (decode_string : String → Option String) (read_json : String → Option UnikernelConfig)
    (secure_join : String → String → Option String) (bundle_dir root_path : String)
    (annotations : Map String) where
  -- What is accepted has the mandatory fields, and its vAccel fields and, where the spec has them, its
  -- ports are those of the spec, whatever the image says; and the only errors are the two that the
  -- caller tells apart.
  unfoldable pub IsFromSpec : Result AnnotError UnikernelConfig → Type 0
  IsFromSpec (ok c) =
      (validate c ≡ ok tt)
      × (c.v_accel ≡ get annotations annot_v_accel)
      × (c.rpc_address ≡ get annotations annot_rpc_address)
      × ((get annotations annot_hyperlight_ports ≡ "")
          ⊎ (c.hyperlight_ports ≡ get annotations annot_hyperlight_ports))
  IsFromSpec (err e) = (e ≡ not_unikernel) ⊎ (e ≡ unsafe_root)

  -- For all annotations and images: a configuration that is accepted has the mandatory fields, takes its
  -- vAccel fields from the spec and, if the spec has ports, those too, whatever the image says; an
  -- error is one of two, that this is no unikernel or that the path of urunc.json is not safe.
  pub get_unikernel_config-IsFromSpec :
      IsFromSpec
        (get_unikernel_config decode_string read_json secure_join bundle_dir root_path annotations)
  unfolding get_unikernel_config IsFromSpec
  get_unikernel_config-IsFromSpec =
      elim (Result-cases (validate (get_config_from_spec annotations))) [
        | inl (u, v) ↦
            rw (IsFromSpec, get_unikernel_config, v)
              (
                v,
                (spec_fields annotations).0,
                (spec_fields annotations).1,
                inr (spec_fields annotations).2,
              )
        | inr (e, v) ↦
            elim (Option-cases (
              secure_join (if is_abs root_path then root_path else join_paths bundle_dir root_path)
                "urunc.json")) [
                  | inl s ↦ rw (IsFromSpec, get_unikernel_config, v, s) (inr refl)
                  | inr (path, s) ↦ elim (Option-cases (read_json path)) [
                    | inl r ↦ rw (IsFromSpec, get_unikernel_config, v, s, r) (inl refl)
                    | inr (read, r) ↦ elim (Result-cases (decode decode_string read)) [
                      | inr (x, d) ↦ rw (IsFromSpec, get_unikernel_config, v, s, r, d) (inl refl)
                      | inl (json_conf, d) ↦ elim (Result-cases (validate json_conf)) [
                        | inr (x, w) ↦
                            rw (IsFromSpec, get_unikernel_config, v, s, r, d, w) (inl refl)
                        | inl (u, w) ↦
                            rw (IsFromSpec, get_unikernel_config, v, s, r, d, w)
                              (
                                validate_moved json_conf (get annotations annot_v_accel)
                                      (get annotations annot_rpc_address)
                                      (if get annotations annot_hyperlight_ports == ""
                                        then json_conf.hyperlight_ports
                                        else get annotations annot_hyperlight_ports)
                                    ∙ w,
                                refl,
                                refl,
                                ground (arith, eq_iff (get annotations annot_hyperlight_ports) ""),
                              )
                      ]
                    ]
                  ]
                ]
      ]
