-- ===== src/Diagnostics/Dump.antt =====
-- The counts that `handle_log_dump` of litearm_driver/src/litearm_driver_diagnostics.cpp reports.
use litearm_ros.Prelude.{
  ℕ, zero, suc, ◌+◌, ◌*◌, ◌/◌, ◌%◌, ◌^◌, ◌≤◌, ◌<◌, ℤ, pos, negsuc, String, ◌≡◌, refl,
  to_int32_small, arith, ltb, true,
}
use native.Mathlib.Omega.{div_fact, mod_fact}
use native.Mathlib.Nat.{div-le_self}
use litearm_ros.Sdk.{Sdk, ok}
use litearm_ros.Node.{Call}
use litearm_ros.Diagnostics.{DumpReport, sample_count, session_sample_size, dumped}

-- `count` samples of the size are in so many bytes, and what is left is less than one; without a size,
-- none are counted.
abbrev pub IsCount : ℕ → ℤ → ℕ → Type 0
IsCount bytes (pos (suc k)) count = (rest : ℕ) × (suc k * count + rest ≡ bytes) × (rest < suc k)
IsCount bytes _ count = count ≡ 0

quotient_small : (a k : ℕ) → a / suc k ≤ a
quotient_small a k = div-le_self a (suc k)

counted : (bytes k : ℕ) → bytes < 2 ^ 31 → sample_count bytes (pos (suc k)) ≡ pos (bytes / suc k)
unfolding sample_count
counted bytes k h =
    let small : bytes / suc k < 2 ^ 31 = ground (arith, quotient_small bytes k) in
    let positive : ltb 0 (suc k + 0) ≡ true = ground arith in
    rw positive (to_int32_small (bytes / suc k) small)

sample_count_exact :
    (bytes : ℕ) (size : ℤ)
    → bytes < 2 ^ 31
    → (count : ℕ) × (sample_count bytes size ≡ pos count) × IsCount bytes size count
unfolding sample_count
sample_count_exact bytes (pos zero) h = (0, refl, refl)
sample_count_exact bytes (pos (suc k)) h =
    (bytes / suc k, counted bytes k h, (bytes % suc k, div_fact bytes k, mod_fact bytes k))
sample_count_exact bytes (negsuc k) h = (0, ground arith, refl)

module _ {Arm : Type 0} ⦃sdk : Sdk Arm⦄ where
  -- A dump of fewer than 2^31 bytes reports exactly the bytes that the SDK wrote, and as many samples as
  -- are whole in them; and 0 samples where the firmware's sample size is not positive.
  pub dumped_counts :
      (path : String) (bytes : ℕ) (call : Call Arm DumpReport)
      → bytes < 2 ^ 31
      → let report = (dumped path (ok bytes, call)).response.body in
        (report.bytes ≡ pos bytes)
        × (count : ℕ) × (report.samples ≡ pos count)
        × IsCount bytes (session_sample_size call.node.arm) count
  unfolding dumped
  dumped_counts path bytes call h =
      let (count, e, exact) = sample_count_exact bytes (session_sample_size call.node.arm) h in
      (to_int32_small bytes h, count, e, exact)
