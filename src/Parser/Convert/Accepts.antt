-- ===== src/Parser/Convert/Accepts.antt =====
-- What a service is once convertService finds nothing against it.
use text.Mathlib.Text.{◌==◌ as str_eq}
use mathlib.Core.List.{Permᴰ}
use navarch.Prelude.{
  map, sort_by, sort_by-perm, str_leb, if◌then◌else◌, ◌≡◌, refl, sym, subst, ◌∙◌, ap, ◌&&◌, not,
  String, Bool, true, false, Option, none, some, List, [], ◌∷◌, arith, All, All-sort_by, Bool-cases,
  inl, inr,
}
use navarch.Spec.{Port, mount_volume, Mount, Service, Ingress}
use navarch.Parser.Compose.{PortConfig, VolumeMount, ServiceConfig}
use navarch.Parser.Errors.{collect, collect-nil, append-nil, is_set, is_filled}
use navarch.Parser.Extensions.{
  RolloutMode, swap, pin, Rollout, undeclared, declared, malformed, parse_ingress_extension,
}
use navarch.Parser.Mounts.{convert_mount, convert_mounts, mount_errors, has_writable_volume}
use navarch.Parser.Convert.{
  Library, directives, port_checks, convert_ports, port_leb, rollout_checks, rollout_errors,
  is_swap, is_swappable_mode, ingress_of, service_errors, convert_service, rollout_of,
  mounts_of_config, depend_checks, scale_checks, ingress_errors,
}

-- The port that a port of the file stands for: the same number, for tcp unless it says otherwise.
pub recorded_port : PortConfig → Port
recorded_port p = record {
  container = p.target;
  protocol = if str_eq p.protocol "" then "tcp" else p.protocol;
}

-- The mount that a mount of the file stands for.
pub recorded_mount : VolumeMount → Mount
recorded_mount v = record {
  kind = mount_volume;
  source = v.source;
  target = v.target;
  read_only = v.read_only;
}

-- Nothing is dropped from a list of ports without an error.
kept_ports :
    (quote : String → String) (name : String) (ps : List PortConfig)
    → collect (port_checks quote name ps) ≡ []
    → convert_ports ps ≡ map recorded_port ps
unfolding port_checks collect convert_ports recorded_port
kept_ports quote name [] h = refl
kept_ports quote name (p ∷ ps) h = elim (Bool-cases (is_set p.published)) [
  | inl public ↦ absurd (ground arith)
  | inr private ↦
      rw private (ap (λ l. recorded_port p ∷ l) (kept_ports quote name ps (quiet_tail private h)))
]
  where
    quiet_tail :
        is_set p.published ≡ false
        → collect (port_checks quote name (p ∷ ps)) ≡ []
        → collect (port_checks quote name ps) ≡ []
    quiet_tail e k = ground arith

-- One mount without an error is recorded, under its name.
kept_mount :
    (quote : String → String) (name : String) (v : VolumeMount)
    → (convert_mount quote name v).0 ≡ []
    → ((convert_mount quote name v).1 ≡ recorded_mount v ∷ []) × (str_eq v.source "" ≡ false)
unfolding convert_mount recorded_mount
kept_mount quote name v h = elim (Bool-cases (str_eq v.kind "volume")) [
  | inl vol ↦ elim (Bool-cases (str_eq v.source "")) [
    | inl empty ↦ absurd (ground arith)
    | inr named ↦ rw (vol, named) (refl, refl)
  ]
  | inr other ↦ absurd (ground arith)
]

kept_mounts :
    (quote : String → String) (name : String) (vs : List VolumeMount)
    → mount_errors quote name vs ≡ []
    → (convert_mounts quote name vs ≡ map recorded_mount vs)
      × All (λ (m : Mount). str_eq m.source "" ≡ false) (map recorded_mount vs)
unfolding mount_errors convert_mounts recorded_mount
kept_mounts quote name [] h = (refl, tt)
kept_mounts quote name (v ∷ vs) h =
    let (one, rest) = append-nil (convert_mount quote name v).0 (mount_errors quote name vs) h in
    let (e, s) = kept_mount quote name v one in
    let (k, t) = kept_mounts quote name vs rest in (rw (e, k) refl, (s, t))

read_only-All :
    (ms : List Mount) → has_writable_volume ms ≡ false → All (λ (m : Mount). m.read_only ≡ true) ms
unfolding has_writable_volume
read_only-All [] h = tt
read_only-All (m ∷ ms) h = (ground arith, read_only-All ms (ground arith))

module _ (lib : Library) where
  open lib use {D, C, quote}

  -- The accepted service out, for the configuration that it comes from.
  pub record IsAccepted (svc : ServiceConfig D C) (out : Service) : Type 0 where
    pub imaged : str_eq out.image "" ≡ false
    pub unprivileged : svc.privileged ≡ false
    pub bridged : is_set svc.network_mode && not (str_eq svc.network_mode "bridge") ≡ false
    pub capless : (svc.cap_add ≡ []) × (svc.cap_drop ≡ [])
    pub deviceless : (svc.devices ≡ []) × (svc.gpus ≡ [])
    -- A mode is declared, and decides the cardinality.
    pub mode : RolloutMode
    pub declares : rollout_of lib svc ≡ declared mode
    pub follows : out.swappable ≡ is_swap (declared mode)
    -- Two revisions never write one volume.
    pub single_writer : out.swappable ≡ true → All (λ (m : Mount). m.read_only ≡ true) out.mounts
    pub ingress_swaps : (i : Ingress) → out.ingress ≡ some i → out.swappable ≡ true
    pub named : All (λ (m : Mount). str_eq m.source "" ≡ false) out.mounts
    -- Nothing was dropped, added or altered.
    pub ports_kept : Permᴰ out.ports (map recorded_port svc.ports)
    pub mounts_kept : Permᴰ out.mounts (map recorded_mount svc.volumes)

  is_filled-nil : {A : Type 0} (xs : List A) → is_filled xs ≡ false → xs ≡ []
  is_filled-nil [] h = refl
  is_filled-nil (x ∷ xs) h = cc

  -- An error-free rollout is a declared mode.
  declared_mode :
      (name : String) (r : Rollout)
      → rollout_errors name r ≡ []
      → (m : RolloutMode) × (r ≡ declared m)
  unfolding rollout_errors
  declared_mode name undeclared h = absurd (ground arith)
  declared_mode name (declared m) h = (m, refl)
  declared_mode name (malformed s) h = absurd (ground arith)

  mode_swappable : (m : RolloutMode) → is_swappable_mode (declared m) ≡ is_swap (declared m)
  unfolding is_swappable_mode
  mode_swappable swap = refl
  mode_swappable pin = refl

  -- The two conflicts, once the mode is known.
  no_conflict :
      (name : String) (m : RolloutMode) (writable : Bool) (o : Option Ingress)
      → collect (rollout_checks name (declared m) writable o) ≡ []
      → (is_swappable_mode (declared m) ≡ true → writable ≡ false)
        × ((i : Ingress) → o ≡ some i → is_swappable_mode (declared m) ≡ true)
  unfolding rollout_checks collect is_swappable_mode
  no_conflict name swap true o h = absurd (ground arith)
  no_conflict name swap false o h = (λ k. refl, λ i e. refl)
  no_conflict name pin w none h = (λ k. cc, λ i e. cc)
  no_conflict name pin w (some x) h = absurd (ground arith)

  directives_quiet :
      (name : String) (svc : ServiceConfig D C)
      → collect (directives name svc) ≡ []
      → (str_eq svc.image "" ≡ false)
        × (svc.privileged ≡ false)
        × (is_set svc.network_mode && not (str_eq svc.network_mode "bridge") ≡ false)
        × ((svc.cap_add ≡ []) × (svc.cap_drop ≡ []))
        × ((svc.devices ≡ []) × (svc.gpus ≡ []))
  unfolding directives
  directives_quiet name svc h =
      let q = collect-nil (directives name svc) h in
      (
        q.0,
        q.1.0,
        q.1.1.0,
        (is_filled-nil svc.cap_add q.1.1.1.1.0, is_filled-nil svc.cap_drop q.1.1.1.1.1.0),
        (
          is_filled-nil svc.devices q.1.1.1.1.1.1.1.1.1.1.1.0,
          is_filled-nil svc.gpus q.1.1.1.1.1.1.1.1.1.1.1.1.1.0,
        ),
      )

  -- The lists of errors of convertService, each empty.
  pub record AllQuiet (name : String) (svc : ServiceConfig D C) : Type 0 where
    pub by_directives : collect (directives name svc) ≡ []
    pub by_ports : collect (port_checks quote name svc.ports) ≡ []
    pub by_mounts : mount_errors quote name svc.volumes ≡ []
    pub by_rollout : rollout_errors name (rollout_of lib svc) ≡ []
    pub by_conflicts :
        collect (
          rollout_checks name
            (rollout_of lib svc)
            (has_writable_volume (mounts_of_config lib name svc))
            (ingress_of (parse_ingress_extension svc.extensions)))
        ≡ []

  pub service_errors-quiet :
      (name : String) (svc : ServiceConfig D C)
      → service_errors lib name svc ≡ []
      → AllQuiet name svc
  unfolding service_errors
  service_errors-quiet name svc h =
      let (d, h1) = append-nil (collect (directives name svc)) _ h in
      let (p, h2) = append-nil (collect (port_checks quote name svc.ports)) _ h1 in
      let (v, h3) = append-nil (mount_errors quote name svc.volumes) _ h2 in
      let (_, h4) = append-nil (collect (depend_checks quote name svc.depends_on)) _ h3 in
      let (_, h5) = append-nil (collect (scale_checks name svc)) _ h4 in
      let (_, h6) =
        append-nil (ingress_errors name (parse_ingress_extension svc.extensions)) _ h5 in
      let (r, c) = append-nil (rollout_errors name (rollout_of lib svc)) _ h6 in
      record { by_directives = d; by_ports = p; by_mounts = v; by_rollout = r; by_conflicts = c }

  -- A service for which convertService finds no violation has an image and none of the rejected
  -- privileges, networks, capabilities and devices, declares its mode, is swappable just when that is
  -- swap, then writes no volume, takes ingress only when it is swappable, and has just
  -- the ports and the mounts of its configuration, each mount of a named volume.
  pub convert_service-IsAccepted :
      (name : String) (svc : ServiceConfig D C)
      → service_errors lib name svc ≡ []
      → IsAccepted svc (convert_service lib name svc)
  unfolding convert_service
  convert_service-IsAccepted name svc h =
      let q = service_errors-quiet name svc h in
      let (imaged, unprivileged, bridged, capless, deviceless) =
        directives_quiet name svc q.by_directives in
      let (m, is_m) = declared_mode name (rollout_of lib svc) q.by_rollout in
      let conflicts =
        no_conflict name m (has_writable_volume (mounts_of_config lib name svc))
          (ingress_of (parse_ingress_extension svc.extensions))
          (subst
            (λ r.
              collect (
                rollout_checks name r (has_writable_volume (mounts_of_config lib name svc))
                  (ingress_of (parse_ingress_extension svc.extensions)))
              ≡ [])
            is_m q.by_conflicts) in
      let mounts = kept_mounts quote name svc.volumes q.by_mounts in
      record {
        imaged = imaged;
        unprivileged = unprivileged;
        bridged = bridged;
        capless = capless;
        deviceless = deviceless;
        mode = m;
        declares = is_m;
        follows = ap is_swappable_mode is_m ∙ mode_swappable m;
        single_writer = λ s.
            All-sort_by _ _ _ (read_only-All _ (conflicts.0 (sym (ap is_swappable_mode is_m) ∙ s)));
        ingress_swaps = λ i e. ap is_swappable_mode is_m ∙ conflicts.1 i e;
        named =
            All-sort_by _ _ _
              (subst (All (λ (m : Mount). str_eq m.source "" ≡ false)) (sym mounts.0) mounts.1);
        ports_kept =
            subst (λ l. Permᴰ (sort_by port_leb (convert_ports svc.ports)) l)
              (kept_ports quote name svc.ports q.by_ports) (sort_by-perm port_leb _);
        mounts_kept =
            subst
              (λ l.
                Permᴰ
                  (sort_by (λ (a b : Mount). str_leb a.target b.target)
                    (mounts_of_config lib name svc))
                  l)
              mounts.0 (sort_by-perm _ _);
      }
