-- ===== src/Resources/Confined.antt =====
-- What the monitor can reach of the host's files.
use urunc.Prelude.{
  String, ◌==◌, Bool, true, false, List, [], ◌∷◌, ◌++◌, ◌||◌, if◌then◌else◌, Result, ok, err, ◌>>=◌,
  OnOk, OnOk->>=, contains, All, All-append, ◌≡◌, refl, ◌⊎◌, inl, inr, arith, Bool-cases,
  Option-cases, Result-cases, starts_with,
}
use urunc.Prelude.Filepath.{join_paths}
use urunc.Types.{Mount, RootfsParams}
use urunc.Hypervisors.{Vmm, VmmKind, uses_tuntap, uses_kvm}
use urunc.Block.{block_dev_nodes}
use urunc.Resources.{
  ResourceError, Files, proc_mount, dev_mount, dev_pts_mount, container_rootfs_mount_path,
  tmpfs_mount, bind_mount, host_mount, mount_if_exists, library_mounts, qemu_data_mounts,
  mounts_for_monitor, monitor_resolv_conf_mount, resolv_conf_mount, find_qemu_data_dir,
}
use urunc.Resources.Volumes.{VolumeHost}
use urunc.Resources.Builders.{
  RootfsBuilder, block_rootfs, initrd_rootfs, sharedfs_rootfs, no_rootfs, rebase_bind_mounts,
  get_block_devs, get_mounts, container_rootfs_mount, virtiofsd_mount, choose_tmpfs_size,
}
use urunc.Resources.Collect.{
  DeviceAnswer, MonitorResources, get_monitor_resources, mount_list, collect_devices,
  get_monitor_devices, devices_from_host,
}

-- The mounts of the container that the builder passes on.
abbrev pub volumes_of : RootfsBuilder → List Mount
volumes_of (block_rootfs mounts mounted_path container_rootfs path guest_type guest) = mounts
volumes_of (initrd_rootfs mounts mounted_path) = mounts
volumes_of (sharedfs_rootfs mounts vfsd shared_path mounted_path sfs_type memory) = mounts
volumes_of (no_rootfs container_rootfs_path block block_mount_point) = []

-- The directory of the container's rootfs that the builder has.
abbrev pub rootfs_of : RootfsBuilder → String
rootfs_of (block_rootfs mounts mounted_path container_rootfs path guest_type guest) =
    container_rootfs
rootfs_of (initrd_rootfs mounts mounted_path) = mounted_path
rootfs_of (sharedfs_rootfs mounts vfsd shared_path mounted_path sfs_type memory) = mounted_path
rootfs_of (no_rootfs container_rootfs_path block block_mount_point) = container_rootfs_path

-- The source and the options are those of one of the volumes.
abbrev pub IsVolume : List Mount → Mount → Type 0
IsVolume [] m = ⊥
IsVolume (v ∷ vs) m = ((m.source ≡ v.source) × (m.options ≡ v.options)) ⊎ IsVolume vs m

-- A filesystem of its own, a read-only bind mount, the container's rootfs without devices, set-user-id
-- bits and execution, or a volume of the container.
abbrev pub IsConfined : String → List Mount → Mount → Type 0
IsConfined rootfs volumes m =
    (m.type ≡ "proc")
    ⊎ (m.type ≡ "tmpfs")
    ⊎ (m.type ≡ "devpts")
    ⊎ (contains m.options "ro" ≡ true)
    ⊎ ((m.source ≡ rootfs)
        × (m.destination ≡ container_rootfs_mount_path)
        × (contains m.options "nodev" ≡ true)
        × (contains m.options "nosuid" ≡ true)
        × (contains m.options "noexec" ≡ true))
    ⊎ IsVolume volumes m

module _ (rootfs : String) (volumes : List Mount) where
  host_mount-IsConfined :
      (source target : String) → IsConfined rootfs volumes (host_mount source target)
  unfolding bind_mount contains
  host_mount-IsConfined source target = inr (inr (inr (inl refl)))

  tmpfs_mount-IsConfined :
      (target size : String) → IsConfined rootfs volumes (tmpfs_mount target size)
  unfolding tmpfs_mount
  tmpfs_mount-IsConfined target size = inr (inl refl)

  container_rootfs_mount-IsConfined :
      (ro : Bool) → IsConfined rootfs volumes (container_rootfs_mount rootfs ro)
  unfolding bind_mount contains
  container_rootfs_mount-IsConfined true = inr (inr (inr (inl refl)))
  container_rootfs_mount-IsConfined false =
      inr (inr (inr (inr (inl (refl, refl, refl, refl, refl)))))

  mount_if_exists-IsConfined :
      (h : Files) (source target : String)
      → OnOk (All (IsConfined rootfs volumes)) (mount_if_exists h source target)
  unfolding mount_if_exists
  mount_if_exists-IsConfined h source target = elim (Option-cases (h.stat source)) [
    | inl e ↦ rw (e, OnOk) tt
    | inr (true, e) ↦ rw (e, OnOk) (host_mount-IsConfined source target, tt)
    | inr (false, e) ↦ rw (e, OnOk) tt
  ]

  library_mounts-IsConfined :
      (h : Files) (name : String) → OnOk (All (IsConfined rootfs volumes)) (library_mounts h name)
  unfolding library_mounts
  library_mounts-IsConfined h name = elim (Bool-cases (name == "firecracker")) [
    | inl y ↦ rw y tt
    | inr n ↦ rw n (
        OnOk->>= (All (IsConfined rootfs volumes)) (All (IsConfined rootfs volumes))
          (mount_if_exists h "/lib64" "/lib64") _ (mount_if_exists-IsConfined h "/lib64" "/lib64")
          (λ lib64 k. (
            host_mount-IsConfined "/lib" "/lib",
            All-append (IsConfined rootfs volumes) lib64 _ k
                (host_mount-IsConfined "/usr/lib" "/usr/lib", tt),
          )))
  ]

  qemu_data_found :
      (h : Files) (q s : Result ResourceError String)
      → OnOk (All (IsConfined rootfs volumes)) (
          q >>= λ q_data_path. s >>= λ s_bios_path.
          mount_if_exists h s_bios_path "/usr/share/seabios" >>= λ bios.
          ok (host_mount q_data_path "/usr/share/qemu" ∷ bios))
  qemu_data_found h (err e) s = tt
  qemu_data_found h (ok q) (err e) = tt
  qemu_data_found h (ok q) (ok s) =
      OnOk->>= (All (IsConfined rootfs volumes)) (All (IsConfined rootfs volumes))
        (mount_if_exists h s "/usr/share/seabios")
        (λ bios. ok (host_mount q "/usr/share/qemu" ∷ bios))
        (mount_if_exists-IsConfined h s "/usr/share/seabios")
        (λ bios k. (host_mount-IsConfined q "/usr/share/qemu", k))

  qemu_data_mounts-IsConfined :
      (h : Files) (name data_path : String)
      → OnOk (All (IsConfined rootfs volumes)) (qemu_data_mounts h name data_path)
  unfolding qemu_data_mounts
  qemu_data_mounts-IsConfined h name data_path = elim (Bool-cases (starts_with name "qemu")) [
    | inr n ↦ rw n tt
    | inl y ↦ rw y (
        qemu_data_found h
          (if data_path == ""
            then find_qemu_data_dir h "qemu"
            else ok (join_paths data_path "qemu"))
          (if data_path == ""
            then find_qemu_data_dir h "seabios"
            else ok (join_paths data_path "seabios")))
  ]

  mounts_for_monitor-IsConfined :
      (h : Files) (path data_path : String)
      → OnOk (All (IsConfined rootfs volumes)) (mounts_for_monitor h path data_path)
  unfolding mounts_for_monitor
  mounts_for_monitor-IsConfined h path data_path =
      OnOk->>= (All (IsConfined rootfs volumes)) (All (IsConfined rootfs volumes)) _ _
        (library_mounts-IsConfined h _)
        (λ libraries k.
          OnOk->>= (All (IsConfined rootfs volumes)) (All (IsConfined rootfs volumes)) _ _
            (qemu_data_mounts-IsConfined h _ _)
            (λ data_mounts l.
              All-append (IsConfined rootfs volumes)
                (proc_mount ∷ dev_mount ∷ dev_pts_mount ∷ host_mount path path ∷ libraries)
                data_mounts
                (
                  inl refl,
                  (inr (inl refl), (inr (inr (inl refl)), (host_mount-IsConfined path path, k))),
                )
                l))

rebase_bind_mounts-IsVolume :
    (rootfs : String) (h : Files) (root : String) (before ms : List Mount)
    → ((m : Mount) → IsVolume ms m → IsVolume before m)
    → OnOk (All (IsConfined rootfs before)) (rebase_bind_mounts h root ms)
unfolding rebase_bind_mounts
rebase_bind_mounts-IsVolume rootfs h root before [] f = tt
rebase_bind_mounts-IsVolume rootfs h root before (m ∷ ms) f =
    elim (Option-cases (h.secure_join root m.destination)) [
      | inl e ↦ rw (e, OnOk) tt
      | inr (resolved, e) ↦ elim (Option-cases (h.rel root resolved)) [
        | inl e' ↦ rw (e, OnOk) (rw (e', OnOk) tt)
        | inr (rel, e') ↦
            rw (e, OnOk)
              (rw (e', OnOk)
                (OnOk->>= (All (IsConfined rootfs before)) (All (IsConfined rootfs before)) _ _
                  (rebase_bind_mounts-IsVolume rootfs h root before ms (λ n k. f n (inr k)))
                  (λ result k. (inr (inr (inr (inr (inr (f _ (inl (refl, refl))))))), k))))
      ]
    ]

virtiofsd_mount-IsConfined :
    (rootfs : String) (volumes : List Mount) (sfs_type path : String)
    → All (IsConfined rootfs volumes) (virtiofsd_mount sfs_type path)
virtiofsd_mount-IsConfined rootfs volumes sfs_type path =
    elim (Bool-cases (sfs_type == "virtiofs")) [
      | inl y ↦ rw y (host_mount-IsConfined rootfs volumes path path, tt)
      | inr n ↦ rw n tt
    ]

get_mounts-IsConfined :
    (h : Files) (rfs : RootfsBuilder)
    → OnOk (All (IsConfined (rootfs_of rfs) (volumes_of rfs))) (get_mounts h rfs)
unfolding get_mounts
get_mounts-IsConfined h (block_rootfs mounts mounted_path root path guest_type guest) =
    elim (Bool-cases (mounted_path == "")) [
      | inl y ↦ rw y (
        tmpfs_mount-IsConfined root mounts "/tmp" "65536k",
        (container_rootfs_mount-IsConfined root mounts false, tt),
      )
      | inr n ↦ rw n (tmpfs_mount-IsConfined root mounts "/tmp" "65536k", tt)
    ]
get_mounts-IsConfined h (initrd_rootfs mounts mounted_path) = (
  container_rootfs_mount-IsConfined mounted_path mounts false,
  (tmpfs_mount-IsConfined mounted_path mounts "/tmp" "65536k", tt),
)
get_mounts-IsConfined h (sharedfs_rootfs mounts vfsd shared_path mounted_path sfs_type memory) =
    OnOk->>= (All (IsConfined mounted_path mounts)) (All (IsConfined mounted_path mounts))
      (rebase_bind_mounts h mounted_path mounts)
      (λ binds. ok (
        (container_rootfs_mount mounted_path false ∷ virtiofsd_mount sfs_type vfsd.path)
        ++ (tmpfs_mount "/tmp" (choose_tmpfs_size sfs_type memory) ∷ binds)))
      (rebase_bind_mounts-IsVolume mounted_path h mounted_path mounts mounts (λ m k. k))
      (λ binds k.
        All-append (IsConfined mounted_path mounts)
          (container_rootfs_mount mounted_path false ∷ virtiofsd_mount sfs_type vfsd.path) _
          (
            container_rootfs_mount-IsConfined mounted_path mounts false,
            virtiofsd_mount-IsConfined mounted_path mounts sfs_type vfsd.path,
          )
          (
            tmpfs_mount-IsConfined mounted_path mounts "/tmp" (choose_tmpfs_size sfs_type memory),
            k,
          ))
get_mounts-IsConfined h (no_rootfs path block block_mount_point) = (
  container_rootfs_mount-IsConfined path [] (block == "" || block_mount_point == ""),
  (tmpfs_mount-IsConfined path [] "/tmp" "65536k", tt),
)

resolv_conf-ro : (options : List String) → contains (options ++ ("ro" ∷ [])) "ro" ≡ true
unfolding contains
resolv_conf-ro [] = refl
resolv_conf-ro (o ∷ os) = ground (arith, resolv_conf-ro os)

monitor_resolv_conf_mount-IsConfined :
    (rootfs : String) (volumes ms : List Mount) (vmm : VmmKind)
    → All (IsConfined rootfs volumes) (mount_list (monitor_resolv_conf_mount vmm ms))
unfolding monitor_resolv_conf_mount
monitor_resolv_conf_mount-IsConfined rootfs volumes ms vmm = elim (Bool-cases (uses_tuntap vmm)) [
  | inl y ↦ rw y tt
  | inr n ↦ rw n (elim (Option-cases (resolv_conf_mount ms)) [
    | inl e ↦ rw e tt
    | inr (m, e) ↦ rw e (elim (Bool-cases (contains m.options "ro")) [
      | inl ro ↦ rw ro (inr (inr (inr (inl ro))), tt)
      | inr ro ↦ rw ro (inr (inr (inr (inl (resolv_conf-ro m.options)))), tt)
    ])
  ])
]

-- What follows the collecting of the mounts keeps them.
module _ (v : VolumeHost) (devices : String → DeviceAnswer) where
  collect_devices-mounts :
      (P : List Mount → Type 0) (rfs : RootfsBuilder) (params : RootfsParams) (vmm : Vmm)
      (mounts : List Mount)
      → P mounts
      → OnOk (λ res. P res.mounts) (collect_devices v devices rfs params vmm mounts)
  unfolding collect_devices
  collect_devices-mounts P rfs params vmm mounts p =
      elim (Result-cases (get_monitor_devices devices (uses_kvm vmm.kind) (uses_tuntap vmm.kind))) [
        | inr (x, e) ↦ rw (e, OnOk) tt
        | inl (devs, e) ↦ elim (Result-cases (get_block_devs v rfs)) [
          | inr (x, e') ↦ rw (e, OnOk) (rw (e', OnOk) tt)
          | inl (args, e') ↦
              elim (Result-cases (devices_from_host devices (block_dev_nodes args params))) [
                | inr (x, e'') ↦ rw (e, OnOk) (rw (e', OnOk) (rw (e'', OnOk) tt))
                | inl (block_devs, e'') ↦ rw (e, OnOk) (rw (e', OnOk) (rw (e'', OnOk) p))
              ]
        ]
      ]

module _ (h : Files) (v : VolumeHost) (devices : String → DeviceAnswer) where
  -- For every host, rootfs builder, monitor and list of container mounts: when
  -- getMonitorResources succeeds, every mount that the monitor gets is a proc, tmpfs or devpts
  -- filesystem, a mount with the option ro, the container's rootfs directory of the builder at
  -- /cntrRootfs with nodev, nosuid and noexec, or has the source and the options of one of the
  -- mounts that the builder passes to the guest.
  pub get_monitor_resources-IsConfined :
      (rfs : RootfsBuilder) (params : RootfsParams) (vmm : Vmm) (data_path : String)
      (cntr_mounts : List Mount)
      → OnOk
          (λ res. All (IsConfined (rootfs_of rfs) (volumes_of rfs)) res.mounts)
          (get_monitor_resources h v devices rfs params vmm data_path cntr_mounts)
  unfolding get_monitor_resources
  get_monitor_resources-IsConfined rfs params vmm data_path cntr_mounts =
      let P = All (IsConfined (rootfs_of rfs) (volumes_of rfs)) in
      let Q = λ (res : MonitorResources). P res.mounts in
      let last = mount_list (monitor_resolv_conf_mount vmm.kind cntr_mounts) in
      OnOk->>= P Q (mounts_for_monitor h vmm.binary_path data_path)
        (λ first. get_mounts h rfs >>= λ second.
          collect_devices v devices rfs params vmm ((first ++ second) ++ last))
        (mounts_for_monitor-IsConfined (rootfs_of rfs) (volumes_of rfs) h vmm.binary_path data_path)
        (λ first k.
          OnOk->>= P Q (get_mounts h rfs)
            (λ second. collect_devices v devices rfs params vmm ((first ++ second) ++ last))
            (get_mounts-IsConfined h rfs)
            (λ second l.
              collect_devices-mounts v devices P rfs params vmm ((first ++ second) ++ last) (
                All-append (IsConfined (rootfs_of rfs) (volumes_of rfs)) (first ++ second) last
                  (All-append (IsConfined (rootfs_of rfs) (volumes_of rfs)) first second k l)
                  (monitor_resolv_conf_mount-IsConfined (rootfs_of rfs) (volumes_of rfs) cntr_mounts
                    vmm.kind))))
