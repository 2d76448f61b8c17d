-- ===== src/Parser/Mounts.antt =====
-- Mounts and volumes in internal/parser/parser.go: driveLetterMount, the volumes of a service,
-- misparsedVolumeNames and volumeOwner. `quote` is fmt's %q.
use Prim.Native.Char.{code}
use Prim.Native.String.{◌++◌ as cat}
use text.Mathlib.Text.{◌==◌ as str_eq}
use navarch.Prelude.{
  ℕ, ◌+◌, ltb, ◌==◌, ◌&&◌, ◌||◌, not, String, Bool, false, Option, none, some, List, [], ◌∷◌, ◌++◌,
  any, if◌then◌else◌, sort_by, str_leb,
}
use navarch.Spec.{GoMap, lookup, keys, Mount, mount_volume}
use navarch.Parser.Compose.{VolumeMount, ServiceConfig}
use navarch.Parser.Errors.{ValidationError, dotted}

-- target[1] == ':' and target[2] is a slash of either kind; the index is of bytes, so the first
-- character is of one byte.
unfoldable pub drive_letter_mount : String → Option (String × String)
drive_letter_mount (String.◌∷◌ c (String.◌∷◌ d (String.◌∷◌ e rest))) =
    if ltb (code c) 128 && code d == b':' && (code e == b'/' || code e == b'\\')
    then some (String.◌∷◌ c String.[], String.◌∷◌ e rest)
    else none
drive_letter_mount s = none

module _ (quote : String → String) (name : String) where
  abbrev mount_error : String → ValidationError
  mount_error message = record { on = dotted name "volumes"; message = message }

  abbrev unnamed : VolumeMount → Option (String × String) → ValidationError
  unnamed v (some (volume, target)) = mount_error (
      cat "mount " (
        cat (quote v.target) (
          cat " was read as a Windows drive path, not volume " (
            cat (quote volume) (
              cat " mounted at " (
                cat (quote target)
                  ": a single-character volume name is ambiguous. Rename the volume or use the long mount syntax."))))))
  unnamed v none = mount_error (
      cat "anonymous volume at " (
        cat (quote v.target)
          " is not supported; declare a named volume so it can be tracked and pinned to a node"))

  -- What one mount of the service gives: its error, or the mount that is recorded.
  unfoldable pub convert_mount : VolumeMount → List ValidationError × List Mount
  unfolding drive_letter_mount
  convert_mount v =
      if str_eq v.kind "volume"
      then if str_eq v.source "" then (unnamed v (drive_letter_mount v.target) ∷ [], []) else (
        [],
        record {
          kind = mount_volume;
          source = v.source;
          target = v.target;
          read_only = v.read_only;
        }
            ∷ [],
      )
      else if str_eq v.kind "tmpfs"
      then (mount_error (cat "tmpfs mount at " (cat (quote v.target) " is not supported")) ∷ [], [])
      else if str_eq v.kind "bind"
      then (
        mount_error (
              cat "bind mount " (
                cat (quote v.source) " is not permitted; host paths are not portable across nodes"))
            ∷ [],
        [],
      )
      else (mount_error (cat "unsupported mount type " (quote v.kind)) ∷ [], [])

  unfoldable pub mount_errors : List VolumeMount → List ValidationError
  unfolding convert_mount
  mount_errors [] = []
  mount_errors (v ∷ vs) = (convert_mount v).0 ++ mount_errors vs

  unfoldable pub convert_mounts : List VolumeMount → List Mount
  unfolding convert_mount
  convert_mounts [] = []
  convert_mounts (v ∷ vs) = (convert_mount v).1 ++ convert_mounts vs

-- hasWritableVolume.
unfoldable pub has_writable_volume : List Mount → Bool
has_writable_volume = any (λ (m : Mount). not m.read_only)

-- v.Type == "volume" && v.Source == volName
abbrev pub mounts_volume : String → VolumeMount → Bool
mounts_volume vol v = str_eq v.kind "volume" && str_eq v.source vol

unfoldable pub misparses : String → VolumeMount → Bool
unfolding drive_letter_mount
misparses vol v =
    if str_eq v.kind "volume" && str_eq v.source ""
    then elim (drive_letter_mount v.target) [ none ↦ false | some (n, p) ↦ str_eq n vol ]
    else false

module _ {D C : Type 0} where
  abbrev pub service_mounts : String → Option (ServiceConfig D C) → Bool
  service_mounts vol none = false
  service_mounts vol (some svc) = any (mounts_volume vol) svc.volumes

  -- The loop of volumeOwner: the first owner and the count, from those so far.
  unfoldable pub owner_from :
      GoMap (ServiceConfig D C) → String → List String → String → ℕ → String × ℕ
  unfolding lookup
  owner_from services vol [] owner count = (owner, count)
  owner_from services vol (n ∷ ns) owner count =
      let hit = service_mounts vol (lookup n services) in
      owner_from services vol ns (if hit && count == 0 then n else owner)
        (if hit then count + 1 else count)

  -- volumeOwner.
  unfoldable pub volume_owner : GoMap (ServiceConfig D C) → String → String × ℕ
  unfolding owner_from
  volume_owner services vol = owner_from services vol (sort_by str_leb (keys services)) "" 0

  -- misparsedVolumeNames(services)[vol].
  unfoldable pub is_misparsed : GoMap (ServiceConfig D C) → String → Bool
  unfolding misparses
  is_misparsed services vol =
      any (λ (p : String × ServiceConfig D C). any (misparses vol) p.1.volumes) services
