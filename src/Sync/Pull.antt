-- ===== src/Sync/Pull.antt =====
-- The page of ops that a batch pulls, and the cursor that it returns.
use wdc_backend.Prelude.{
  subst, Timestamp, ℕ, zero, suc, ◌≤◌, ◌<◌, ◌≡◌, Bool, true, ◌&&◌, Option, List, [], ◌∷◌, select,
  take, length, length-take-le, sort_by, insert_by, ltb, leb, if◌then◌else◌, arith, All,
  All-insert_by, All-sort_by, All-take, All-select, All-mono, Bool-cases, leb→le, inl, inr,
}
use wdc_backend.Rls.{RlsContext}
use wdc_backend.Database.{Store, OpRow, parent_visible, Result, ok, err}
use wdc_backend.Sync.{OpResult, SyncBatch, SyncStore, SyncResponse, SinceCursor}
use wdc_backend.Sync.Content.{server_seqs}
use wdc_backend.Sync.Batch.{
  pull_ops, max_seq, pulled_seqs, response_of, cursor_or_zero, by_report, apply_groups, pulled,
  answer_batch, apply_new_batch,
}

abbrev no_later : OpRow → OpRow → Bool
no_later a b = leb a.server_seq b.server_seq

-- In ascending order of the server's numbers.
abbrev pub IsAscending : List OpRow → Type 0
IsAscending [] = Unit
IsAscending (o ∷ os) = All (λ p. o.server_seq ≤ p.server_seq) os × IsAscending os

insert_by-IsAscending :
    (o : OpRow) (os : List OpRow) → IsAscending os → IsAscending (insert_by no_later o os)
insert_by-IsAscending o [] h = (tt, tt)
insert_by-IsAscending o (x ∷ os) (p, h) = elim (Bool-cases (no_later o x)) [
  | inl before ↦
      let first : o.server_seq ≤ x.server_seq = leb→le _ _ before in
      rw before ((first, All-mono _ _ os (λ y q. omega (arith, first, q)) p), (p, h))
  | inr after ↦
      rw after (All-insert_by _ no_later o os (ground arith) p, insert_by-IsAscending o os h)
]

sort_by-IsAscending : (os : List OpRow) → IsAscending (sort_by no_later os)
sort_by-IsAscending [] = tt
sort_by-IsAscending (o ∷ os) =
    insert_by-IsAscending o (sort_by no_later os) (sort_by-IsAscending os)

take-IsAscending : (n : ℕ) (os : List OpRow) → IsAscending os → IsAscending (take n os)
take-IsAscending zero os h = tt
take-IsAscending (suc n) [] h = tt
take-IsAscending (suc n) (o ∷ os) (p, h) = (All-take _ n os p, take-IsAscending n os h)

-- A page has at most 200 ops, in ascending order, each after the cursor and of a report that the
-- actor sees.
pub pull_ops-IsAscending :
    (actor : RlsContext) (since : ℕ) (s : Store)
    → (length (pull_ops actor since s) ≤ 200)
      × IsAscending (pull_ops actor since s)
      × All
          (λ o. (since < o.server_seq) × (parent_visible actor s o.report_id ≡ true))
          (pull_ops actor since s)
unfolding pull_ops
pull_ops-IsAscending actor since s =
    let Fresh : OpRow → Type 0 =
      λ o. (since < o.server_seq) × (parent_visible actor s o.report_id ≡ true) in
    let test : OpRow → Bool = λ o. ltb since o.server_seq && parent_visible actor s o.report_id in
    (
      length-take-le 200 (sort_by no_later (select test s.op_log)),
      take-IsAscending 200 _ (sort_by-IsAscending (select test s.op_log)),
      All-take Fresh 200 _ (
          All-sort_by Fresh no_later _
            (All-select Fresh test s.op_log (λ o h. (ground arith, ground arith)))),
    )

abbrev pub AtMost : ℕ → List ℕ → Type 0
AtMost m seqs = All (λ seq. seq ≤ m) seqs

max_seq-le : (m : ℕ) (seqs : List ℕ) → m ≤ max_seq m seqs
unfolding max_seq
max_seq-le m [] = omega arith
max_seq-le m (seq ∷ seqs) = ground (arith, max_seq-le m seqs, max_seq-le seq seqs)

max_seq-AtMost : (m : ℕ) (seqs : List ℕ) → AtMost (max_seq m seqs) seqs
unfolding max_seq
max_seq-AtMost m [] = tt
max_seq-AtMost m (seq ∷ seqs) = (
  ground (arith, max_seq-le m seqs, max_seq-le seq seqs),
  max_seq-AtMost (if ltb m seq then seq else m) seqs,
)

at_most : (seq m c : ℕ) → seq ≤ m → seq ≤ (if ltb 0 m then m else c)
at_most seq m c h = ground arith

response_of-AtMost :
    (since : Option SinceCursor) (results : List OpResult) (page : Option (List OpRow))
    → let cursor = (response_of since results page).next_cursor in
      AtMost cursor (server_seqs results) × AtMost cursor (pulled_seqs page)
unfolding response_of
response_of-AtMost since results page =
    let m = max_seq (max_seq 0 (server_seqs results)) (pulled_seqs page) in
    let below : (seq : ℕ) → seq ≤ m → seq ≤ (if ltb 0 m then m else cursor_or_zero since) =
      λ seq h. at_most seq m (cursor_or_zero since) h in
    (
      All-mono _ _ (server_seqs results)
          (λ seq h.
            below seq
              (omega (arith, h, max_seq-le (max_seq 0 (server_seqs results)) (pulled_seqs page))))
          (max_seq-AtMost 0 (server_seqs results)),
      All-mono _ _ (pulled_seqs page) below (max_seq-AtMost _ (pulled_seqs page)),
    )

abbrev Covers : SyncResponse → Type 0
Covers r =
    AtMost r.next_cursor (server_seqs r.results) × AtMost r.next_cursor (pulled_seqs r.pulled_ops)

answer_batch-AtMost :
    (now : Timestamp) (batch : SyncBatch) (results : List OpResult)
    (page : Result (Option (List OpRow))) (s : SyncStore) {response : SyncResponse}
    → (answer_batch now batch results page s).0 ≡ ok response
    → AtMost response.next_cursor (server_seqs response.results)
      × AtMost response.next_cursor (pulled_seqs response.pulled_ops)
unfolding answer_batch response_of
answer_batch-AtMost now batch results (err e) s done = cc done
answer_batch-AtMost now batch results (ok page) s {response} done =
    let same : response_of batch.since_cursor results page ≡ response = ground (arith, done) in
    subst Covers same (response_of-AtMost batch.since_cursor results page)

-- The cursor of a batch that is not a replay and returns is no less than any serverSeq that its
-- results carry, nor than the number of any op that it pulls. The result of an applied transition
-- carries no serverSeq, so the number of its op is not bounded.
pub apply_new_batch-AtMost :
    (actor : RlsContext) (now : Timestamp) (batch : SyncBatch) (s : SyncStore)
    (response : SyncResponse)
    → (apply_new_batch actor now batch s).0 ≡ ok response
    → AtMost response.next_cursor (server_seqs response.results)
      × AtMost response.next_cursor (pulled_seqs response.pulled_ops)
unfolding apply_new_batch
apply_new_batch-AtMost actor now batch s response done =
    let (results, tables) = apply_groups actor now (by_report batch.ops []) s.tables in
    answer_batch-AtMost now batch results (pulled actor batch.since_cursor tables)
      (record s { tables = tables }) done
