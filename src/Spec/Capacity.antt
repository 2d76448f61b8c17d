-- ===== src/Spec/Capacity.antt =====
-- PeakMemoryBytes and PeakCPUMillis against the exact sums they stand for.
use mathlib.Core.List.{Permᴰ}
use navarch.Prelude.{
  ◌-◌, negsuc, ℕ, ◌+◌, ◌*◌, ◌%◌, ◌≤◌, ◌<◌, ◌≡◌, refl, sym, ap, ◌∙◌, [], ◌∷◌, if◌then◌else◌, arith,
  pos, word_mod, int64_max, signed64, add64,
}
use navarch.Spec.{GoMap, Service, DeploymentSpec, peak_from, peak_memory_bytes, peak_cpu_millis}

-- A pinned service runs once during a rollout, a swappable one twice.
unfoldable pub exact_peak : (Service → ℕ) → GoMap Service → ℕ
exact_peak amount [] = 0
exact_peak amount ((name, svc) ∷ rest) =
    (if svc.swappable then amount svc * 2 else amount svc) + exact_peak amount rest

abbrev pub exact_memory : DeploymentSpec → ℕ
exact_memory s = exact_peak (λ svc. svc.limits.memory_bytes) s.services

abbrev pub exact_cpu : DeploymentSpec → ℕ
exact_cpu s = exact_peak (λ svc. svc.limits.cpu_millis) s.services

peak_from-exact :
    (amount : Service → ℕ) (total : ℕ) (m : GoMap Service)
    → total < word_mod
    → peak_from amount total m ≡ (total + exact_peak amount m) % word_mod
unfolding peak_from exact_peak
peak_from-exact amount total [] h = omega arith
peak_from-exact amount total ((name, svc) ∷ rest) h = ground (
  arith,
  peak_from-exact amount
      (add64 total (if svc.swappable then amount svc * 2 % word_mod else amount svc)) rest,
)

peak_from-exact_mod :
    (amount : Service → ℕ) (m : GoMap Service)
    → peak_from amount 0 m ≡ exact_peak amount m % word_mod
peak_from-exact_mod amount m = omega (arith, peak_from-exact amount 0 m (omega arith))

-- While the exact sums fit an int64, both estimates are exact: pinned services count once and
-- swappable services twice.
pub peaks_exact :
    (s : DeploymentSpec)
    → exact_memory s ≤ int64_max
    → exact_cpu s ≤ int64_max
    → (peak_memory_bytes s ≡ pos (exact_memory s)) × (peak_cpu_millis s ≡ pos (exact_cpu s))
unfolding peak_memory_bytes peak_cpu_millis
peaks_exact s h k = (
  ground (arith, peak_from-exact_mod (λ svc. svc.limits.memory_bytes) s.services),
  ground (arith, peak_from-exact_mod (λ svc. svc.limits.cpu_millis) s.services),
)

-- A memory sum above the largest int64 and below 2 ^ 64 wraps: the estimate is negative, and 2 ^ 64
-- less than the sum.
pub peak_memory_wraps :
    (s : DeploymentSpec)
    → int64_max < exact_memory s
    → exact_memory s < word_mod
    → (n : ℕ) × (peak_memory_bytes s ≡ negsuc n) × (n + 1 + exact_memory s ≡ word_mod)
unfolding peak_memory_bytes
peak_memory_wraps s h k = (
  word_mod - exact_memory s - 1,
  ground (arith, peak_from-exact_mod (λ svc. svc.limits.memory_bytes) s.services),
  omega arith,
)

exact_peak_perm :
    (amount : Service → ℕ) {m n : GoMap Service}
    → Permᴰ m n
    → exact_peak amount m ≡ exact_peak amount n
unfolding exact_peak
exact_peak_perm amount Permᴰ.nil = refl
exact_peak_perm amount (Permᴰ.cons e p) = ground (arith, exact_peak_perm amount p)
exact_peak_perm amount (Permᴰ.swap e f) = ground arith
exact_peak_perm amount (Permᴰ.trans p q) = exact_peak_perm amount p ∙ exact_peak_perm amount q

-- Neither estimate depends on the order in which the map of services is visited.
pub peaks_perm :
    (s t : DeploymentSpec)
    → Permᴰ s.services t.services
    → (peak_memory_bytes s ≡ peak_memory_bytes t) × (peak_cpu_millis s ≡ peak_cpu_millis t)
unfolding peak_memory_bytes peak_cpu_millis
peaks_perm s t p = (
  ap signed64 (
      peak_from-exact_mod (λ svc. svc.limits.memory_bytes) s.services
      ∙ ap (λ (n : ℕ). n % word_mod) (exact_peak_perm (λ svc. svc.limits.memory_bytes) p)
      ∙ sym (peak_from-exact_mod (λ svc. svc.limits.memory_bytes) t.services)),
  ap signed64 (
      peak_from-exact_mod (λ svc. svc.limits.cpu_millis) s.services
      ∙ ap (λ (n : ℕ). n % word_mod) (exact_peak_perm (λ svc. svc.limits.cpu_millis) p)
      ∙ sym (peak_from-exact_mod (λ svc. svc.limits.cpu_millis) t.services)),
)
