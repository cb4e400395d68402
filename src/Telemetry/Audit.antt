-- ===== src/Telemetry/Audit.antt =====
-- The log and the metrics of src/middleware/ through a process.
use payment_apis.Prelude.{
  ℕ, ◌+◌, ◌-◌, ◌≡◌, refl, ap, subst, ◌∙◌, inl, inr, List, [], ◌∷◌, ◌++◌, All, count, map, arith,
  Bool-cases,
}
use payment_apis.Telemetry.{
  received, completed, Incoming, Sent, Listener, World, silent_paths, skip, has, request_logger,
  metrics_middleware, heard, finish, labels_of, arrive, Step, arrives, finishes, closes, started,
  Reach, here, next,
}
use payment_apis.Telemetry.Lines.{
  is_received, is_completed, answers, answer, IsPaired, IsWatched, is_loud, All-IsWatched-more,
  count-out, All-out,
}

pub record IsAudited (w : World) : Type 0 where
  pub balanced :
      count is_received w.telemetry.lines
      ≡ count is_completed w.telemetry.lines + (count is_loud w.pending + count is_loud w.dropped)
  pub counts : map answer w.telemetry.counted ≡ answers w.telemetry.lines
  pub observes : w.telemetry.observed ≡ w.telemetry.counted
  pub paired : IsPaired w.telemetry.lines
  pub watched : All (IsWatched w.telemetry.lines) w.pending

-- Both middlewares leave out the same paths.
skip-silent_paths : (r : Incoming) → has skip r.path ≡ has silent_paths r.path
skip-silent_paths r = ground arith

arrive-IsAudited :
    (start : ℕ) (r : Incoming) (w : World) → IsAudited w → IsAudited (arrive start r w)
unfolding arrive request_logger metrics_middleware
arrive-IsAudited start r w a = elim (Bool-cases (has silent_paths r.path)) [
  | inl silent ↦ rw (skip-silent_paths r) (
      rw silent (record {
        balanced = a.balanced;
        counts = a.counts;
        observes = a.observes;
        paired = a.paired;
        watched = (inl refl, a.watched);
      }))
  | inr loud ↦ rw (skip-silent_paths r) (
      rw loud (record {
        balanced = omega (arith, a.balanced);
        counts = a.counts;
        observes = a.observes;
        paired = a.paired;
        watched = (
          inr (w.telemetry.uuid w.telemetry.drawn, start, r, refl, inl (refl, refl)),
          All-IsWatched-more (received (w.telemetry.uuid w.telemetry.drawn) r.method r.url)
              w.telemetry.lines w.pending a.watched,
        );
      }))
]

module _ (round_ms : ℕ → ℕ) (w : World) (ls : List Listener) (before after : List (List Listener))
    (e : w.pending ≡ before ++ ls ∷ after) (a : IsAudited w) where
  taken : IsWatched w.telemetry.lines ls × All (IsWatched w.telemetry.lines) (before ++ after)
  taken =
      All-out (IsWatched w.telemetry.lines) before after ls
        (subst (All (IsWatched w.telemetry.lines)) e a.watched)

  left : count is_loud w.pending ≡ count is_loud (ls ∷ []) + count is_loud (before ++ after)
  left = ap (count is_loud) e ∙ count-out is_loud before after ls

  finish-IsAudited :
      (sent : Sent)
      → IsAudited
          (record w { telemetry = finish round_ms sent ls w.telemetry; pending = before ++ after })
  unfolding finish heard
  finish-IsAudited sent = elim taken.0 [
    | inl quiet ↦
        let fewer = left in
        rw quiet (record {
          balanced = omega (arith, a.balanced, rw quiet at fewer);
          counts = a.counts;
          observes = a.observes;
          paired = a.paired;
          watched = taken.1;
        })
    | inr (req_id, start, r, both, known) ↦
        let fewer = left in
        rw both (record {
          balanced = omega (arith, a.balanced, rw both at fewer);
          counts = ap (λ xs. (r.method, sent.status) ∷ xs) a.counts;
          observes = ap (λ xs. labels_of sent r ∷ xs) a.observes;
          paired = (known, a.paired);
          watched =
              All-IsWatched-more
                (completed req_id r.method sent.url sent.status (round_ms (sent.at - start)))
                w.telemetry.lines (before ++ after) taken.1;
        })
  ]

  drop-IsAudited : IsAudited (record w { pending = before ++ after; dropped = ls ∷ w.dropped })
  drop-IsAudited = record {
    balanced = omega (arith, a.balanced, left, count-out is_loud [] w.dropped ls);
    counts = a.counts;
    observes = a.observes;
    paired = a.paired;
    watched = taken.1;
  }

Step-IsAudited :
    (round_ms : ℕ → ℕ) (w after : World) → Step round_ms w after → IsAudited w → IsAudited after
Step-IsAudited round_ms w after (arrives start r) a = arrive-IsAudited start r w a
Step-IsAudited round_ms w after (finishes sent ls xs ys e) a =
    finish-IsAudited round_ms w ls xs ys e a sent
Step-IsAudited round_ms w after (closes ls xs ys e) a = drop-IsAudited round_ms w ls xs ys e a

-- However requests arrive, are answered and are dropped after a process has started: the lines "request received"
-- in the log are as many as the lines "request completed" and the pending and the dropped responses with
-- listeners; each completed line comes after a received one of the same id and method; the calls of
-- the counter and of the timer are the same, one for each completed line, with its method and status and in its
-- order; and a pending response has no listeners, or those of both middlewares for a request whose received
-- line is in the log.
pub Reach-IsAudited :
    (round_ms : ℕ → ℕ) (uuid : ℕ → ℕ) {w : World} → Reach round_ms (started uuid) w → IsAudited w
Reach-IsAudited round_ms uuid here = record {
  balanced = refl;
  counts = refl;
  observes = refl;
  paired = tt;
  watched = tt;
}
Reach-IsAudited round_ms uuid (next {mid} {after} run step) =
    Step-IsAudited round_ms mid after step (Reach-IsAudited round_ms uuid run)
