-- ===== src/Telemetry/Lines.antt =====
-- The log of Telemetry: which lines belong together.
use Prim.Native.String.{String}
use payment_apis.Prelude.{
  ℕ, ◌+◌, ◌≡◌, ◌⊎◌, inl, inr, Bool, true, false, List, [], ◌∷◌, ◌++◌, All, All-imp, count, arith,
}
use payment_apis.Telemetry.{
  Incoming, Labels, Line, received, completed, Listener, completing, counting,
}

abbrev pub is_received : Line → Bool
is_received (received req_id method url) = true
is_received (completed req_id method url status duration_ms) = false

abbrev pub is_completed : Line → Bool
is_completed (received req_id method url) = false
is_completed (completed req_id method url status duration_ms) = true

-- What the second lines say of the responses, and what the labels do.
abbrev pub answers : List Line → List (String × ℕ)
answers [] = []
answers (received req_id method url ∷ lines) = answers lines
answers (completed req_id method url status duration_ms ∷ lines) = (method, status) ∷ answers lines

abbrev pub answer : Labels → String × ℕ
answer labels = (labels.method, labels.status_code)

-- There is a first line of the id and the method.
abbrev pub Has : ℕ → String → List Line → Type 0
Has req_id method [] = ⊥
Has req_id method (received i m url ∷ lines) =
    ((i ≡ req_id) × (m ≡ method)) ⊎ Has req_id method lines
Has req_id method (completed i m url status duration_ms ∷ lines) = Has req_id method lines

-- Each second line comes after a first one, of the same id and method.
abbrev pub IsPaired : List Line → Type 0
IsPaired [] = Unit
IsPaired (received req_id method url ∷ lines) = IsPaired lines
IsPaired (completed req_id method url status duration_ms ∷ lines) =
    Has req_id method lines × IsPaired lines

-- The listeners of a response: none, or those of both middlewares for a request whose first line is there.
abbrev pub IsWatched : List Line → List Listener → Type 0
IsWatched lines ls =
    (ls ≡ [])
    ⊎ ((req_id start : ℕ) × (r : Incoming) × (ls ≡ completing req_id start r ∷ counting r ∷ [])
        × Has req_id r.method lines)

abbrev pub is_loud : List Listener → Bool
is_loud [] = false
is_loud (l ∷ ls) = true

-- Another line takes nothing away.
IsWatched-more :
    (line : Line) (lines : List Line) (ls : List Listener)
    → IsWatched lines ls
    → IsWatched (line ∷ lines) ls
IsWatched-more line lines ls (inl e) = inl e
IsWatched-more (received i m url) lines ls (inr (req_id, start, r, e, h)) =
    inr (req_id, start, r, e, inr h)
IsWatched-more (completed i m url status duration_ms) lines ls (inr (req_id, start, r, e, h)) =
    inr (req_id, start, r, e, h)

pub All-IsWatched-more :
    (line : Line) (lines : List Line) (pending : List (List Listener))
    → All (IsWatched lines) pending
    → All (IsWatched (line ∷ lines)) pending
All-IsWatched-more line lines pending =
    All-imp (IsWatched lines) (IsWatched (line ∷ lines)) pending (IsWatched-more line lines)

module _ {A : Type 0} where
  -- One element taken out of a list.
  pub count-out :
      (p : A → Bool) (before after : List A) (x : A)
      → count p (before ++ x ∷ after) ≡ count p (x ∷ []) + count p (before ++ after)
  count-out p [] after x = ground arith
  count-out p (y ∷ before) after x = ground (arith, count-out p before after x)

  pub All-out :
      (P : A → Type 0) (before after : List A) (x : A)
      → All P (before ++ x ∷ after)
      → P x × All P (before ++ after)
  All-out P [] after x all = all
  All-out P (y ∷ before) after x all =
      let (here, rest) = All-out P before after x all.1 in (here, (all.0, rest))
