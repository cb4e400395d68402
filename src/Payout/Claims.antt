-- ===== src/Payout/Claims.antt =====
-- `claimDue` of src/payouts/payout.repository.ts is called again before the lease is over.
use payment_apis.Prelude.{
  ap, sym, ◌∙◌, ℕ, ◌+◌, ◌<◌, ◌≡◌, ◌≢◌, subst, inl, inr, true, false, Option, List, [], ◌∷◌, map,
  select, update, All, All-take, All-order_by, All-select, All-map, Absent, ◌==◌, arith, Bool-cases,
}
use payment_apis.Db.{Db, PayoutRow, make_interval, ok}
use payment_apis.Payout.{is_due, due_ids, is_among, lease, claim_due}

among-All : (P : ℕ → Type 0) (ids : List ℕ) (id : ℕ) → All P ids → is_among ids id ≡ true → P id
among-All P [] id all e = absurd (cc)
among-All P (j ∷ ids) id all e = elim (Bool-cases (j == id)) [
  | inl same ↦ let eq : j ≡ id = ground arith in subst P eq all.0
  | inr other ↦ among-All P ids id all.1 (rw other at e)
]

every : {A : Type 0} (P : A → Type 0) (xs : List A) → ((x : A) → P x) → All P xs
every P [] f = tt
every P (x ∷ xs) f = (f x, every P xs f)

-- No row that was leased is due before the end of the lease.
leased-not_due :
    (now t seconds : ℕ) (merchant_id : Option ℕ) (ids : List ℕ) (payouts : List PayoutRow)
    → t < now + make_interval seconds
    → All
        (λ p. is_due t merchant_id p ≡ true → is_among ids p.id ≡ false)
        (update (λ p. is_among ids p.id) (lease now seconds) payouts)
leased-not_due now t seconds merchant_id ids [] early = tt
leased-not_due now t seconds merchant_id ids (p ∷ payouts) early = (
  elim (Bool-cases (is_among ids p.id)) [
    | inl held ↦ rw held (λ due. absurd (ground arith))
    | inr free ↦ rw free (λ due. free)
  ],
  leased-not_due now t seconds merchant_id ids payouts early,
)

due_ids-free :
    (now t seconds limit : ℕ) (merchant_id : Option ℕ) (ids : List ℕ) (payouts : List PayoutRow)
    → t < now + make_interval seconds
    → All
        (λ j. is_among ids j ≡ false)
        (due_ids t limit merchant_id (update (λ p. is_among ids p.id) (lease now seconds) payouts))
due_ids-free now t seconds limit merchant_id ids payouts early =
    All-map (λ j. is_among ids j ≡ false) (λ p. p.id) _
      (All-take (λ p. is_among ids p.id ≡ false) limit _
        (All-order_by (λ p. is_among ids p.id ≡ false) (λ p. p.next_attempt_at) _
          (All-select (λ p. is_among ids p.id ≡ false) (is_due t merchant_id) _
            (leased-not_due now t seconds merchant_id ids payouts early))))

-- An id that the claim did not select is not among those of the rows that it returned.
Absent-claimed :
    (ids : List ℕ) (k : ℕ) (payouts : List PayoutRow)
    → is_among ids k ≡ false
    → Absent k (map (λ p. p.id) (select (λ p. is_among ids p.id) payouts))
Absent-claimed ids k payouts free =
    All-map (λ j. j ≢ k) (λ p. p.id) _
      (All-select (λ p. p.id ≢ k) (λ p. is_among ids p.id) payouts
        (every (λ p. is_among ids p.id ≡ true → p.id ≢ k) payouts
          λ p held same. let moved = subst (λ j. is_among ids j ≡ true) same held in absurd (cc)))

-- While the lease of a claim runs and no row of payouts is written, no other claim, in whatever scope, returns
-- a payout that the claim returned.
pub claims_disjoint :
    (limit seconds other_limit other_seconds : ℕ) (scope other_scope : Option ℕ)
    (db after later : Db) (claimed again : List PayoutRow) (last : Db)
    → claim_due limit seconds scope db ≡ (ok claimed, after)
    → later.payouts ≡ after.payouts
    → later.now < db.now + make_interval seconds
    → claim_due other_limit other_seconds other_scope later ≡ (ok again, last)
    → All (λ p. Absent p.id (map (λ q. q.id) claimed)) again
unfolding claim_due
claims_disjoint limit seconds other_limit other_seconds scope other_scope db after later claimed
      again last one same early two =
    let ids = due_ids db.now limit scope db.payouts in
    let leased = update (λ p. is_among ids p.id) (lease db.now seconds) db.payouts in
    let others = due_ids later.now other_limit other_scope later.payouts in
    let rows : select (λ p. is_among ids p.id) leased ≡ claimed = cc in
    let kept : leased ≡ later.payouts = ap (λ r. r.1.payouts) one ∙ sym same in
    let free : All (λ j. is_among ids j ≡ false) others =
      subst (λ ps. All (λ j. is_among ids j ≡ false) (due_ids later.now other_limit other_scope ps))
        kept (due_ids-free db.now later.now seconds other_limit other_scope ids db.payouts early) in
    let taken = update (λ p. is_among others p.id) (lease later.now other_seconds) later.payouts in
    let rest : select (λ p. is_among others p.id) taken ≡ again = cc in
    subst (λ (ps : List PayoutRow). All (λ p. Absent p.id (map (λ q. q.id) claimed)) ps) rest
      (All-select (λ p. Absent p.id (map (λ q. q.id) claimed)) (λ p. is_among others p.id) taken
        (every (λ p. is_among others p.id ≡ true → Absent p.id (map (λ q. q.id) claimed)) taken
          λ p held.
            subst (λ (qs : List PayoutRow). Absent p.id (map (λ q. q.id) qs)) rows
              (Absent-claimed ids p.id leased
                (among-All (λ j. is_among ids j ≡ false) others p.id free held))))
