-- ===== src/Block/MountInfo.antt =====
-- findMountInfo against a description of its result.
use urunc.Prelude.{
  String, ◌==◌, Bool, true, false, not, Option, none, some, List, [], ◌∷◌, ◌&&◌, ◌||◌,
  if◌then◌else◌, ◌≡◌, refl, arith, contains, ◌∙◌, ap,
}
use urunc.Types.{BlockDevParams, no_block_dev}
use urunc.Block.{MountEntry, Search, search_step, search_mounts, nothing_found, find_mount_info}

-- The last entry that is mounted at the path.
abbrev pub last_at : String → List MountEntry → Option MountEntry → Option MountEntry
last_at path [] found = found
last_at path (m ∷ ms) found = last_at path ms (if m.mountpoint == path then some m else found)

-- Another mount, of a filesystem that is not special, has the same source.
abbrev pub shared : String → List MountEntry → String → Bool
shared path [] source = false
shared path (m ∷ ms) source =
    shared path ms source
    || (not (m.mountpoint == path) && (not (m.fs_type == m.source) && m.source == source))

abbrev pub device_of : String → MountEntry → BlockDevParams
device_of path m = record no_block_dev {
  source = m.source;
  fs_type = m.fs_type;
  mount_point = path;
  mount_options = m.options;
}

abbrev device_or_none : String → Option MountEntry → BlockDevParams
device_or_none path none = no_block_dev
device_or_none path (some m) = device_of path m

-- What findMountInfo promises.
abbrev pub described : String → List MountEntry → Option MountEntry → Option BlockDevParams
described path ms none = none
described path ms (some m) =
    if m.source == "" || shared path ms m.source then none else some (device_of path m)

search_step-dev :
    (path : String) (m : MountEntry) (found : Option MountEntry) (s : Search)
    → s.block_dev ≡ device_or_none path found
    → (search_step path m s).block_dev
      ≡ device_or_none path (if m.mountpoint == path then some m else found)
unfolding search_step
search_step-dev path m none s h = ground arith
search_step-dev path m (some x) s h = ground arith

search_mounts-dev :
    (path : String) (ms : List MountEntry) (found : Option MountEntry) (s : Search)
    → s.block_dev ≡ device_or_none path found
    → (search_mounts path ms s).block_dev ≡ device_or_none path (last_at path ms found)
unfolding search_mounts
search_mounts-dev path [] found s h = h
search_mounts-dev path (m ∷ ms) found s h =
    search_mounts-dev path ms (if m.mountpoint == path then some m else found)
      (search_step path m s) (search_step-dev path m found s h)

-- The entry adds its source to those seen.
abbrev adds : String → MountEntry → String → Bool
adds path m source =
    not (m.mountpoint == path) && (not (m.fs_type == m.source) && m.source == source)

search_step-seen :
    (path : String) (m : MountEntry) (s : Search) (source : String)
    → contains (search_step path m s).non_special_sources source
      ≡ (adds path m source || contains s.non_special_sources source)
unfolding search_step contains
search_step-seen path m s source = ground arith

swap_or : (a b c : Bool) → (a || (b || c)) ≡ ((a || b) || c)
swap_or true b c = refl
swap_or false b c = refl

search_mounts-seen :
    (path : String) (ms : List MountEntry) (s : Search) (source : String)
    → contains (search_mounts path ms s).non_special_sources source
      ≡ (shared path ms source || contains s.non_special_sources source)
unfolding search_mounts
search_mounts-seen path [] s source = refl
search_mounts-seen path (m ∷ ms) s source =
    search_mounts-seen path ms (search_step path m s) source
    ∙ ap (λ b. shared path ms source || b) (search_step-seen path m s source)
    ∙ swap_or (shared path ms source) (adds path m source) (contains s.non_special_sources source)

-- The end of findMountInfo, after the loop.
abbrev outcome : BlockDevParams → List String → Option BlockDevParams
outcome dev seen =
    if dev.source == "" then none else if contains seen dev.source then none else some dev

outcome-described :
    (path : String) (ms : List MountEntry) (o : Option MountEntry) (seen : List String)
    → ((source : String) → contains seen source ≡ (shared path ms source || false))
    → outcome (device_or_none path o) seen ≡ described path ms o
outcome-described path ms none seen h = refl
outcome-described path ms (some m) seen h = rw (h m.source) (ground arith)

-- For all entries and paths: findMountInfo returns the device of the last entry mounted at the path. It
-- returns none if there is no such entry, if that entry has no source, or if an entry mounted
-- elsewhere, of a filesystem that is not special, has the same source.
pub find_mount_info-described :
    (mount_info : List MountEntry) (path : String)
    → find_mount_info mount_info path ≡ described path mount_info (last_at path mount_info none)
unfolding find_mount_info contains
find_mount_info-described mount_info path =
    let s = search_mounts path mount_info nothing_found in
    ap (λ dev. outcome dev s.non_special_sources)
      (search_mounts-dev path mount_info none nothing_found refl)
    ∙ outcome-described path mount_info (last_at path mount_info none) s.non_special_sources
        (search_mounts-seen path mount_info nothing_found)
