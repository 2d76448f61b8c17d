-- ===== src/Tests/Spec.antt =====
-- Peaks and comparisons of the specifications of the fleet.
use mathlib.Core.List.{Permᴰ}
use navarch.Prelude.{ℕ, ◌+◌, negsuc, pos, ◌≡◌, refl, true, ◌≤◌, ◌<◌, arith, int64_max, word_mod}
use navarch.Spec.{peak_memory_bytes, peak_cpu_millis, lookup}
use navarch.Spec.Capacity.{
  exact_peak, exact_memory, exact_cpu, peaks_exact, peak_memory_wraps, peaks_perm,
}
use navarch.Spec.Equal.{service_eq}
use navarch.Tests.Data.{web, stack_spec, stack_spec_reversed, huge_spec}

stack_memory : exact_memory stack_spec ≡ 384
unfolding exact_peak
stack_memory = refl

stack_cpu : exact_cpu stack_spec ≡ 400
unfolding exact_peak
stack_cpu = refl

stack_memory_fits : exact_memory stack_spec ≤ int64_max
stack_memory_fits = omega (arith, stack_memory)

stack_cpu_fits : exact_cpu stack_spec ≤ int64_max
stack_cpu_fits = omega (arith, stack_cpu)

peaks_exact_example :
    (peak_memory_bytes stack_spec ≡ pos (exact_memory stack_spec))
    × (peak_cpu_millis stack_spec ≡ pos (exact_cpu stack_spec))
peaks_exact_example = peaks_exact stack_spec stack_memory_fits stack_cpu_fits

huge_memory : exact_memory huge_spec ≡ 9223372036854775808
unfolding exact_peak
huge_memory = refl

huge_beyond : int64_max < exact_memory huge_spec
huge_beyond = omega (arith, huge_memory)

huge_below : exact_memory huge_spec < word_mod
huge_below = omega (arith, huge_memory)

peak_memory_wraps_example :
    (n : ℕ) × (peak_memory_bytes huge_spec ≡ negsuc n) × (n + 1 + exact_memory huge_spec ≡ word_mod)
peak_memory_wraps_example = peak_memory_wraps huge_spec huge_beyond huge_below

reversed : Permᴰ stack_spec.services stack_spec_reversed.services
reversed = Permᴰ.swap refl refl

peaks_perm_example :
    (peak_memory_bytes stack_spec ≡ peak_memory_bytes stack_spec_reversed)
    × (peak_cpu_millis stack_spec ≡ peak_cpu_millis stack_spec_reversed)
peaks_perm_example = peaks_perm stack_spec stack_spec_reversed reversed

same_web : service_eq web web ≡ true
unfolding service_eq lookup
same_web = refl
