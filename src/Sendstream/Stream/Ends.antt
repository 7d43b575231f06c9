-- ===== src/Sendstream/Stream/Ends.antt =====
-- Whether the loop over a scanner of pkg/sendstream/scanner.go ends on any bytes.
use btrsync.Common.{ℕ, zero, suc, ◌<◌, ◌≢◌, arith, true, false, length, inl, inr}
use btrsync.Common.Outcome.{stuck, Outcome-cases}
use btrsync.Sendstream.Scanner.{Scanner, scan}
use btrsync.Sendstream.Scanner.Progress.{scan-shorter, scan-ne-stuck}
use btrsync.Sendstream.Stream.Scanning.{scan_all}

-- The loop over a scanner ends on any bytes and in any state of the scanner: fuel beyond the
-- number of bytes that are left never runs out.
pub scan_all-ne-stuck : (fuel : ℕ) (s : Scanner) → length s.reader < fuel → scan_all fuel s ≢ stuck
unfolding scan_all
scan_all-ne-stuck zero s h = absurd (omega arith)
scan_all-ne-stuck (suc fuel) s h = elim (Outcome-cases (scan s)) [
  | inl ((true, s'), e) ↦ elim (Outcome-cases (scan_all fuel s')) [
    | inl (r, q) ↦ rw (e, q) (λ p. cc)
    | inr (inl (x, q)) ↦ rw (e, q) (λ p. cc)
    | inr (inr (inl q)) ↦ rw (e, q) (λ p. cc)
    | inr (inr (inr q)) ↦ absurd (scan_all-ne-stuck fuel s' (omega (arith, scan-shorter s s' e)) q)
  ]
  | inl ((false, s'), e) ↦ rw e (λ p. cc)
  | inr (inl (x, e)) ↦ rw e (λ p. cc)
  | inr (inr (inl e)) ↦ rw e (λ p. cc)
  | inr (inr (inr e)) ↦ absurd (scan-ne-stuck s e)
]
