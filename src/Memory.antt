-- ===== src/Memory.antt =====
-- services/memory/service.py and the contracts of packages/cwap_contracts/v2/memory.py: what a
-- scope remembers. The table is the list of its rows in the order they were written. Floats, text
-- methods, the tokens' regular expression and the embedder are the parameter `Outside`; NaN is left
-- out. Times are numbers.
pub mod Pruning
pub mod Writing
pub mod Remembering
pub mod Recall
pub mod Recalling
pub mod Usefulness
pub mod Upkeep
use ae_cwap.Common.Tables.{select_one, update_where}
use ae_cwap.Prelude.{
  ◌≡◌, Option, String, Bool, if◌then◌else◌, ℕ, List, none, ◌∷◌, take_text, ◌==◌, take, [], keep,
  Result, ltb, ◌&&◌, map, err, some, sorted, contains, leb, not, ◌||◌, length, nat_eq, ◌-◌, ok,
  ◌++◌, ◌+◌, any, true,
}

pub record Outside (U : Type 0) : Type 0 where
  -- `<=`, `+`, `*` and `math.log1p` of floats
  pub le : U → U → Bool
  pub plus : U → U → U
  pub times : U → U → U
  pub log1p : U → U
  -- n / 100, and n / m
  pub hundredths : ℕ → U
  pub ratio : ℕ → ℕ → U
  -- `str.strip`, `str.lower`, `str.split`, `" ".join`, `_TOKEN_RE.findall`
  pub strip : String → String
  pub lower : String → String
  pub split : String → List String
  pub joined : List String → String
  pub findall : String → List String
  -- the embedder: none where it raises
  pub embed : String → Option (List U)
  pub identity : String

pub data MemoryScope : Type 0 where
  workflow agent skill run : MemoryScope

pub data MemoryKind : Type 0 where
  learning fact failure preference : MemoryKind

-- `.value`
abbrev pub scope_value : MemoryScope → String
scope_value MemoryScope.workflow = "workflow"
scope_value MemoryScope.agent = "agent"
scope_value MemoryScope.skill = "skill"
scope_value MemoryScope.run = "run"

abbrev pub kind_value : MemoryKind → String
kind_value MemoryKind.learning = "learning"
kind_value MemoryKind.fact = "fact"
kind_value MemoryKind.failure = "failure"
kind_value MemoryKind.preference = "preference"

-- the table's `Memory`
pub record MemoryRow (U : Type 0) : Type 0 where
  pub id : String
  pub tenant_id : String
  pub scope : String
  pub scope_id : String
  pub kind : String
  pub text : String
  pub embedding : Option (List U)
  pub embedding_model : String
  pub source_run_id : Option String
  pub usefulness : U
  pub created_at : ℕ

-- as it is asked for; `is_writable` below says which are accepted
pub record MemoryWriteRequest : Type 0 where
  pub tenant_id : String
  pub scope : MemoryScope
  pub scope_id : String
  pub kind : MemoryKind
  pub text : String
  pub source_run_id : Option String

pub record RecallRequest : Type 0 where
  pub tenant_id : String
  pub scope : MemoryScope
  pub scope_id : String
  pub query : String
  pub limit : ℕ

pub data MemoryError : Type 0 where
  empty_memory : MemoryError
  -- a row that was read is gone
  row_gone : MemoryError

abbrev pub default_capacity : ℕ
default_capacity = 500

abbrev pub query_limit : ℕ
query_limit = 2000

-- a set of texts, as a list without repetition
abbrev pub distinct : List String → List String
distinct [] = []
distinct (x ∷ xs) = let rest = distinct xs in if contains xs x then rest else x ∷ rest

module _ {U : Type 0} (O : Outside U) where
  abbrev pub min_usefulness : U
  min_usefulness = O.hundredths 15

  abbrev pub dedupe_threshold : U
  dedupe_threshold = O.hundredths 93

  -- what the contract of a write asks for; it strips the texts, as `remember` strips the text again
  unfoldable pub is_writable : MemoryWriteRequest → Bool
  is_writable request =
      not (O.strip request.tenant_id == "")
      && not (O.strip request.scope_id == "")
      && not (O.strip request.text == "")
      && (take_text 4000 (O.strip request.text) == O.strip request.text)

  unfoldable pub query_text : String → String
  query_text t = take_text query_limit (O.joined (O.split t))

  abbrev pub min_of : U → U → U
  min_of a b = if O.le a b then a else b

  abbrev pub max_of : U → U → U
  max_of a b = if O.le b a then a else b

  -- `filter_by(tenant_id=…, scope=…, scope_id=…)`
  abbrev pub in_scope : String → MemoryScope → String → MemoryRow U → Bool
  in_scope tenant_id scope scope_id r =
      (r.tenant_id == tenant_id) && (r.scope == scope_value scope) && (r.scope_id == scope_id)

  pub dot : List U → List U → U → U
  dot (a ∷ left) (b ∷ right) total = dot left right (O.plus total (O.times a b))
  dot _ _ total = total

  -- of vectors of one length
  pub cosine_similarity : List U → List U → U
  unfolding dot
  cosine_similarity left right =
      max_of (O.hundredths 0) (min_of (O.hundredths 100) (dot left right (O.hundredths 0)))

  abbrev pub tokens : String → List String
  tokens t = distinct (O.findall (O.lower t))

  unfoldable pub lexical_overlap : List String → List String → U
  lexical_overlap [] right = O.hundredths 0
  lexical_overlap (t ∷ left) [] = O.hundredths 0
  lexical_overlap (t ∷ left) (u ∷ right) =
      O.ratio (length (keep (contains (u ∷ right)) (t ∷ left)))
        (length (t ∷ left) + length (keep (λ x. not (contains (t ∷ left) x)) (u ∷ right)))

  -- `_embed`: the vector, and whose it is
  abbrev pub embed_text : String → Option (List U) × String
  embed_text t = elim (O.embed t) [ none ↦ (none, "") | some e ↦ (some e, O.identity) ]

  -- a vector that is there and is not empty
  abbrev pub vector_of : Option (List U) → List U
  vector_of none = []
  vector_of (some e) = e

  unfoldable pub relevance : Option (List U) → String → List String → MemoryRow U → U
  relevance query_embedding query_identity query_tokens r =
      let left = vector_of query_embedding in
      let right = vector_of r.embedding in
      if ltb 0 (length left)
        && ltb 0 (length right)
        && not (query_identity == "")
        && (query_identity == r.embedding_model)
        && nat_eq (length left) (length right)
      then cosine_similarity left right
      else lexical_overlap query_tokens (tokens r.text)

  -- says the same
  unfoldable pub is_duplicate : Option (List U) → String → MemoryRow U → Bool
  is_duplicate embedding t r =
      (O.lower (O.strip r.text) == O.lower (O.strip t))
      || O.le dedupe_threshold (
          relevance embedding (if ltb 0 (length (vector_of embedding)) then O.identity else "")
            (tokens t) r)

  -- `_find_duplicate`
  unfoldable pub find_duplicate :
      MemoryWriteRequest → Option (List U) → String → List (MemoryRow U) → Option String
  find_duplicate request embedding t rows =
      elim (select_one (is_duplicate embedding t) (
        keep
          (λ (r : MemoryRow U).
            in_scope request.tenant_id request.scope request.scope_id r
            && (r.kind == kind_value request.kind))
          rows)) [ none ↦ none | some r ↦ some r.id ]

  -- the order of `usefulness.asc(), created_at.asc()`
  abbrev pub worth_le : MemoryRow U → MemoryRow U → Bool
  worth_le a b =
      if O.le b.usefulness a.usefulness
      then O.le a.usefulness b.usefulness && leb a.created_at b.created_at
      else true

  -- `_prune_if_needed`: the table, and how many went
  unfoldable pub prune_if_needed :
      String → MemoryScope → String → ℕ → List (MemoryRow U) → List (MemoryRow U) × ℕ
  prune_if_needed tenant_id scope scope_id capacity rows =
      let mine = keep (in_scope tenant_id scope scope_id) rows in
      if leb (length mine) capacity
      then (rows, 0)
      else let ids =
          map (λ (r : MemoryRow U). r.id) (take (length mine - capacity) (sorted worth_le mine)) in
        (keep (λ (r : MemoryRow U). not (contains ids r.id)) rows, length ids)

  -- half a point more, up to ten
  abbrev pub strengthened : MemoryRow U → MemoryRow U
  strengthened r = record r {
    usefulness = min_of (O.hundredths 1000) (O.plus r.usefulness (O.hundredths 50));
  }

  abbrev pub has_id : String → MemoryRow U → Bool
  has_id id r = r.id == id

  abbrev pub new_row : MemoryWriteRequest → String → ℕ → MemoryRow U
  new_row request id now = record {
    id = id;
    tenant_id = request.tenant_id;
    scope = scope_value request.scope;
    scope_id = request.scope_id;
    kind = kind_value request.kind;
    text = O.strip request.text;
    embedding = (embed_text (O.strip request.text)).0;
    embedding_model = (embed_text (O.strip request.text)).1;
    source_run_id = request.source_run_id;
    usefulness = O.hundredths 100;
    created_at = now;
  }

  -- the table, and the row that the entry is of; `id` and `now` are those of a new row
  unfoldable pub remember :
      MemoryWriteRequest
      → String
      → ℕ
      → List (MemoryRow U)
      → Result MemoryError (List (MemoryRow U) × MemoryRow U)
  remember request id now rows =
      let t = O.strip request.text in
      if t == ""
      then err MemoryError.empty_memory
      else elim (find_duplicate request (embed_text t).0 t rows) [
        | some old ↦ elim (select_one (has_id old) rows) [
          | none ↦ err MemoryError.row_gone
          | some r ↦ ok (update_where (has_id old) strengthened rows, strengthened r)
        ]
        | none ↦
            let r = new_row request id now in
            ok (
              (prune_if_needed request.tenant_id request.scope request.scope_id default_capacity
                  (rows ++ r ∷ [])).0,
              r,
            )
      ]

  -- the table, and how many were changed
  pub reinforce : List String → U → List (MemoryRow U) → List (MemoryRow U) × ℕ
  reinforce [] delta rows = (rows, 0)
  reinforce (i ∷ ids) delta rows = (
    update_where (λ (r : MemoryRow U). contains (i ∷ ids) r.id)
        (λ (r : MemoryRow U). record r {
          usefulness =
              max_of (O.hundredths 0) (min_of (O.hundredths 1000) (O.plus r.usefulness delta));
        })
        rows,
    length (keep (λ (r : MemoryRow U). contains (i ∷ ids) r.id) rows),
  )

  -- the order of `usefulness.desc(), created_at.desc()`
  abbrev best_le : MemoryRow U → MemoryRow U → Bool
  best_le a b = worth_le b a

  pub list_memories : String → MemoryScope → String → ℕ → List (MemoryRow U) → List (MemoryRow U)
  list_memories tenant_id scope scope_id limit rows =
      take limit (sorted best_le (keep (in_scope tenant_id scope scope_id) rows))

  -- the table, and how many went
  pub forget : String → MemoryScope → String → List (MemoryRow U) → List (MemoryRow U) × ℕ
  forget tenant_id scope scope_id rows = (
    keep (λ (r : MemoryRow U). not (in_scope tenant_id scope scope_id r)) rows,
    length (keep (in_scope tenant_id scope scope_id) rows),
  )

  -- the table, and whether a row went
  pub forget_entry : String → String → List (MemoryRow U) → List (MemoryRow U) × Bool
  forget_entry tenant_id id rows = (
    keep (λ (r : MemoryRow U). not ((r.tenant_id == tenant_id) && (r.id == id))) rows,
    any (λ (r : MemoryRow U). (r.tenant_id == tenant_id) && (r.id == id)) rows,
  )

-- what the calls of the service change
pub data MemoryCall (U : Type 0) : Type 0 where
  written : MemoryWriteRequest → String → ℕ → MemoryCall U
  reinforced : List String → U → MemoryCall U
  forgotten : String → MemoryScope → String → MemoryCall U
  entry_forgotten : String → String → MemoryCall U

module _ {U : Type 0} (O : Outside U) where
  pub memory_call : MemoryCall U → List (MemoryRow U) → List (MemoryRow U)
  memory_call (MemoryCall.written request id now) rows = elim (remember O request id now rows) [
    | err e ↦ rows
    | ok result ↦ result.0
  ]
  memory_call (MemoryCall.reinforced ids delta) rows = (reinforce O ids delta rows).0
  memory_call (MemoryCall.forgotten tenant_id scope scope_id) rows =
      (forget O tenant_id scope scope_id rows).0
  memory_call (MemoryCall.entry_forgotten tenant_id id) rows = (forget_entry O tenant_id id rows).0

  abbrev pub memory_calls : List (MemoryCall U) → List (MemoryRow U) → List (MemoryRow U)
  memory_calls [] rows = rows
  memory_calls (c ∷ calls) rows = memory_calls calls (memory_call c rows)
