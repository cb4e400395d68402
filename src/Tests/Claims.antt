-- ===== src/Tests/Claims.antt =====
-- Two claims of due payouts, the second while the lease of the first runs.
use payment_apis.Prelude.{ℕ, ◌≡◌, refl, none, List, [], ◌∷◌, All, Absent, map, arith}
use payment_apis.Db.{Db, PayoutRow, ok}
use payment_apis.Payout.{claim_due}
use payment_apis.Payout.Claims.{claims_disjoint}
use payment_apis.Sample.{sample, good_payout, bad_payout, lost_payout}

abbrev leased_until : ℕ → ℕ → PayoutRow → PayoutRow
leased_until t now p = record p { next_attempt_at = t; updated_at = now }

abbrev claimed : List PayoutRow
claimed = leased_until 60_001_000 1_000 good_payout ∷ []

abbrev after : Db
after = record sample {
  payouts = leased_until 60_001_000 1_000 good_payout ∷ bad_payout ∷ lost_payout ∷ [];
}

-- A minute later but for a millisecond.
abbrev later : Db
later = record after { now = 60_000_000 }

abbrev again : List PayoutRow
again =
    leased_until 120_000_000 60_000_000 bad_payout
    ∷ leased_until 120_000_000 60_000_000 lost_payout
    ∷ []

abbrev last : Db
last = record later { payouts = leased_until 60_001_000 1_000 good_payout ∷ again }

claims : claim_due 1 60 none sample ≡ (ok claimed, after)
unfolding claim_due
claims = refl

claims_again : claim_due 20 60 none later ≡ (ok again, last)
unfolding claim_due
claims_again = refl

claims_disjoint_example : All (λ p. Absent p.id (map (λ q. q.id) claimed)) again
claims_disjoint_example =
    claims_disjoint 1 60 20 60 none none sample after later claimed again last claims refl
      (omega arith) claims_again
