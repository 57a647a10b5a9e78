-- ===== src/Tests/Memories.antt =====
-- The memory service with natural numbers for floats, and no embedder.
use ae_cwap.Memory.Recalling.{rows_of, recall_lem}
use ae_cwap.Memory.Writing.{mine_of, remember_full}
use ae_cwap.Memory.Pruning.{IsKeyed, IsOrder}
use ae_cwap.Memory.Usefulness.{IsScale}
use ae_cwap.Memory.Upkeep.{memory_calls_lem}
use ae_cwap.Memory.{
  MemoryWriteRequest, find_duplicate, Outside, remember, RecallRequest, MemoryRow, MemoryScope,
  MemoryCall, memory_calls, new_row, in_scope, MemoryKind, default_capacity, is_duplicate,
  relevance, lexical_overlap,
}
use ae_cwap.Memory.Recall.{is_useful, recall}
use ae_cwap.Common.Tables.{select_one}
use ae_cwap.Prelude.{
  ◌≡◌, ℕ, List, All, String, true, length, none, In, leb, arith, ok, [], ◌+◌, false, ◌==◌, ◌∷◌, suc,
  keep, ◌*◌, ap, inl, zero, sym, refl, ◌≤◌, if◌then◌else◌, min, ◌∙◌, nat_eq, inr, eq_iff,
}

abbrev pub outside : Outside ℕ
outside = record {
  le = leb;
  plus = λ a b. a + b;
  times = λ a b. a * b;
  log1p = λ a. a;
  hundredths = λ n. n;
  ratio = λ n m. if nat_eq n m then 100 else 0;
  strip = λ s. s;
  lower = λ s. s;
  split = λ s. s ∷ [];
  joined = λ l. elim l [ [] ↦ "" | s ∷ _ ↦ s ];
  findall = λ s. s ∷ [];
  embed = λ s. none;
  identity = "none";
}

outside-IsOrder : IsOrder outside
outside-IsOrder = record {
  total = λ x y h. ground (arith, h);
  trans = λ x y z h k. ground (arith, h, k);
}

outside-IsScale : IsScale outside
outside-IsScale = record { mono = λ n m h. ground (arith, h); grows = λ x n. ground arith }

abbrev entry : String → String → ℕ → MemoryRow ℕ
entry id content usefulness = record {
  id = id;
  tenant_id = "acme";
  scope = "agent";
  scope_id = "a1";
  kind = "learning";
  text = content;
  embedding = none;
  embedding_model = "";
  source_run_id = none;
  usefulness = usefulness;
  created_at = 0;
}

abbrev pub two_entries : List (MemoryRow ℕ)
two_entries = entry "m1" "confirm the city" 50 ∷ entry "m2" "ask for dates" 200 ∷ []

other_ids : ¬ (◌≡◌ {A = String} "m1" "m2")
other_ids e = let h : ("m1" == "m2") ≡ true = (eq_iff "m1" "m2").1 e in absurd cc

abbrev id_of : MemoryRow ℕ → String
id_of r = r.id

two_entries-IsKeyed : IsKeyed two_entries
two_entries-IsKeyed r s (inl a) (inl b) e = sym a ∙ b
two_entries-IsKeyed r s (inl a) (inr (inl b)) e =
    absurd (other_ids (ap id_of a ∙ e ∙ sym (ap id_of b)))
two_entries-IsKeyed r s (inr (inl a)) (inl b) e =
    absurd (other_ids (ap id_of b ∙ sym e ∙ sym (ap id_of a)))
two_entries-IsKeyed r s (inr (inl a)) (inr (inl b)) e = sym a ∙ b
two_entries-IsKeyed r s (inr (inr a)) m e = absurd a
two_entries-IsKeyed r s (inl a) (inr (inr b)) e = absurd b
two_entries-IsKeyed r s (inr (inl a)) (inr (inr b)) e = absurd b

abbrev lesson : MemoryWriteRequest
lesson = record {
  tenant_id = "acme";
  scope = MemoryScope.agent;
  scope_id = "a1";
  kind = MemoryKind.learning;
  text = "quote in euros";
  source_run_id = none;
}

abbrev query : RecallRequest
query = record {
  tenant_id = "acme";
  scope = MemoryScope.agent;
  scope_id = "a1";
  query = "ask for dates";
  limit = 5;
}

recall_lem_example :
    All
      (λ r.
        In r two_entries
        × (in_scope outside "acme" MemoryScope.agent "a1" r ≡ true)
        × (is_useful outside r ≡ true))
      (recall outside query two_entries)
    × (length (recall outside query two_entries)
        ≡ min 5 (length (keep (is_useful outside) (rows_of outside query two_entries))))
recall_lem_example = recall_lem outside query two_entries two_entries-IsKeyed

abbrev memory_writes : List (MemoryCall ℕ)
memory_writes =
    MemoryCall.written lesson "m1" 1
    ∷ MemoryCall.written lesson "m2" 2
    ∷ MemoryCall.reinforced ("m1" ∷ []) 2000
    ∷ MemoryCall.entry_forgotten "other" "m1"
    ∷ []

memory_calls_lem_example :
    All
      (λ (r : MemoryRow ℕ). (leb 0 r.usefulness ≡ true) × (leb r.usefulness 1000 ≡ true))
      (memory_calls outside memory_writes [])
    × ((tenant_id : String) (scope : MemoryScope) (scope_id : String)
        → length (
            keep
              (in_scope outside tenant_id scope scope_id)
              (memory_calls outside memory_writes []))
          ≤ default_capacity)
memory_calls_lem_example = memory_calls_lem outside memory_writes outside-IsOrder outside-IsScale

-- a scope full of what has proved useful
abbrev proven : ℕ → List (MemoryRow ℕ)
proven zero = []
proven (suc n) = entry "m1" "confirm the city" 300 ∷ proven n

length-proven : (n : ℕ) → length (mine_of outside lesson (proven n)) ≡ n
length-proven zero = refl
length-proven (suc n) = ap suc (length-proven n)

proven_better :
    (n : ℕ)
    → All (λ (r : MemoryRow ℕ). leb r.usefulness 100 ≡ false) (mine_of outside lesson (proven n))
proven_better zero = tt
proven_better (suc n) = (refl, proven_better n)

proven_fresh : (n : ℕ) → All (λ (r : MemoryRow ℕ). ("m9" == r.id) ≡ false) (proven n)
proven_fresh zero = tt
proven_fresh (suc n) = (refl, proven_fresh n)

proven_new : (n : ℕ) → find_duplicate outside lesson none "quote in euros" (proven n) ≡ none
unfolding find_duplicate select_one is_duplicate relevance lexical_overlap
proven_new zero = refl
proven_new (suc n) = proven_new n

remember_full_example :
    remember outside lesson "m9" 9 (proven 500) ≡ ok (proven 500, new_row outside lesson "m9" 9)
remember_full_example =
    remember_full outside lesson "m9" 9 (proven 500) outside-IsOrder refl (proven_new 500)
      (length-proven 500) (proven_better 500) (proven_fresh 500)
