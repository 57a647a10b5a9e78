-- ===== src/Common/Logbus/Replay.antt =====
-- `history` of packages/cwap_common/logbus.py, as a watcher that comes back reads it.
use ae_cwap.Common.Logbus.Numbering.{IsOwnCall, log_calls-IsNumbered}
use ae_cwap.Common.Logbus.Sequence.{numbers, own}
use ae_cwap.Common.Logbus.{history, LogEvent, LogCall, log_calls, new_bus, seq_le}
use ae_cwap.Prelude.{
  ◌≡◌, sorted, List, ℕ, [], ◌∷◌, String, suc, ap, ◌++◌, keep, zero, ◌+◌, ◌≤◌, map, ◌==◌, length,
  subst, ◌∙◌, ltb, arith, sym, true, ◌&&◌, false, take, refl, Bool-cases, inl, if◌then◌else◌, inr,
  All, sorted_self, IsSorted, drop,
}

-- numbered from `suc k` on
abbrev IsFrom : ℕ → List LogEvent → Type 0
IsFrom k [] = Unit
IsFrom k (r ∷ rs) = (r.seq ≡ suc k) × IsFrom (suc k) rs

abbrev upto : ℕ → ℕ → List ℕ
upto k zero = []
upto k (suc n) = suc k ∷ upto (suc k) n

upto_snoc : (k n : ℕ) → upto k (suc n) ≡ upto k n ++ suc (k + n) ∷ []
upto_snoc k zero = ap (λ m. suc m ∷ []) (omega arith)
upto_snoc k (suc n) =
    ap (λ l. suc k ∷ l) (upto_snoc (suc k) n ∙ ap (λ m. upto (suc k) n ++ m ∷ []) (omega arith))

numbers_eq_upto : (n : ℕ) → numbers n ≡ upto 0 n
numbers_eq_upto zero = refl
numbers_eq_upto (suc n) =
    ap (λ l. l ++ suc n ∷ []) (numbers_eq_upto n)
    ∙ ap (λ m. upto 0 n ++ suc m ∷ []) (omega arith)
    ∙ sym (upto_snoc 0 n)

head_of : ℕ → List ℕ → ℕ
head_of n [] = n
head_of n (m ∷ ms) = m

tail_of : List ℕ → List ℕ
tail_of [] = []
tail_of (m ∷ ms) = ms

upto-IsFrom :
    (k : ℕ) (rs : List LogEvent)
    → map (λ (r : LogEvent). r.seq) rs ≡ upto k (length rs)
    → IsFrom k rs
unfolding head_of tail_of
upto-IsFrom k [] h = tt
upto-IsFrom k (r ∷ rs) h = (ap (head_of 0) h, upto-IsFrom (suc k) rs (ap tail_of h))

drop-IsFrom : (j k : ℕ) (rs : List LogEvent) → IsFrom k rs → IsFrom (j + k) (drop j rs)
drop-IsFrom zero k rs h = subst (λ m. IsFrom m rs) (omega arith) h
drop-IsFrom (suc j) k [] h = tt
drop-IsFrom (suc j) k (r ∷ rs) h =
    subst (λ m. IsFrom m (drop j rs)) (omega arith) (drop-IsFrom j (suc k) rs h.1)

after-All :
    (k : ℕ) (r : LogEvent) (rs : List LogEvent)
    → IsFrom k rs
    → r.seq ≤ k
    → All (λ x. seq_le r x ≡ true) rs
after-All k r [] h l = tt
after-All k r (x ∷ rs) h l = (ground (arith, h.0, l), after-All (suc k) r rs h.1 (omega (arith, l)))

from-IsSorted : (k : ℕ) (rs : List LogEvent) → IsFrom k rs → IsSorted seq_le rs
from-IsSorted k [] h = tt
from-IsSorted k (r ∷ rs) h =
    (after-All (suc k) r rs h.1 (omega (arith, h.0)), from-IsSorted (suc k) rs h.1)

keep_all :
    (a k : ℕ) (rs : List LogEvent)
    → IsFrom k rs
    → a ≤ k
    → keep (λ (r : LogEvent). ltb a r.seq) rs ≡ rs
keep_all a k [] h l = refl
keep_all a k (r ∷ rs) h l =
    let b : ltb a r.seq ≡ true = ground (arith, h.0, l) in
    rw b (ap (λ m. r ∷ m) (keep_all a (suc k) rs h.1 (omega (arith, l))))

-- of lines that are numbered on, those above `a` are those after the first of them
keep_eq_drop :
    (j k : ℕ) (rs : List LogEvent)
    → IsFrom k rs
    → keep (λ (r : LogEvent). ltb (j + k) r.seq) rs ≡ drop j rs
keep_eq_drop zero k rs h = keep_all (0 + k) k rs h (omega arith)
keep_eq_drop (suc j) k [] h = refl
keep_eq_drop (suc j) k (r ∷ rs) h =
    let b : ltb (suc j + k) r.seq ≡ false = ground (arith, h.0) in
    rw b (
      ap (λ n. keep (λ (x : LogEvent). ltb n x.seq) rs) (omega arith)
      ∙ keep_eq_drop j (suc k) rs h.1)

keep-own :
    (a : ℕ) (run_id : String) (rows : List LogEvent)
    → keep (λ (r : LogEvent). (r.run_id == run_id) && ltb a r.seq) rows
      ≡ keep (λ (r : LogEvent). ltb a r.seq) (own run_id rows)
keep-own a run_id [] = refl
keep-own a run_id (r ∷ rows) = elim (Bool-cases (r.run_id == run_id)) [
  | inl b ↦ rw b (ap (λ l. if ltb a r.seq then r ∷ l else l) (keep-own a run_id rows))
  | inr b ↦ rw b (keep-own a run_id rows)
]

-- After calls on a bus that alone writes an empty table, in any order, in which every event that is
-- emitted passes the contract under a run id without outer white space, and no caller publishes an
-- event with a number of its own: the history of a run after the number `a`
-- is the run's lines without the first `a`, in the order in which they were written, up to the
-- limit. A watcher that has seen up to `a` misses no line and sees none twice.
pub history_lem :
    (lower strip : String → String) (calls : List LogCall) (run_id : String) (a limit : ℕ)
    → All (IsOwnCall strip) calls
    → let rows = (log_calls lower strip calls ([], new_bus)).0 in
      history rows run_id a limit ≡ take limit (drop a (own run_id rows))
unfolding history
history_lem lower strip calls run_id a limit own_calls =
    let rows = (log_calls lower strip calls ([], new_bus)).0 in
    let rs = own run_id rows in
    let f : IsFrom 0 rs =
      upto-IsFrom 0 rs (
        (log_calls-IsNumbered lower strip calls run_id own_calls).0
        ∙ numbers_eq_upto (length rs)) in
    let kept : keep (λ (r : LogEvent). ltb a r.seq) rs ≡ drop a rs =
      ap (λ n. keep (λ (r : LogEvent). ltb n r.seq) rs) (omega arith) ∙ keep_eq_drop a 0 rs f in
    ap (λ l. take limit (sorted seq_le l)) (keep-own a run_id rows ∙ kept)
    ∙ ap (take limit)
        (sorted_self seq_le (drop a rs) (from-IsSorted (a + 0) (drop a rs) (drop-IsFrom a 0 rs f)))
