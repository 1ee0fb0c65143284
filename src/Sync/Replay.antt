-- ===== src/Sync/Replay.antt =====
-- A batch sent again under its idempotency key.
use wdc_backend.Prelude.{
  ◌+◌, ◌<◌, Timestamp, String, ◌≡◌, refl, sym, ap, ◌∙◌, Option, ◌&&◌, none, some, List, [], ◌∷◌,
  ◌++◌, find, ltb, str_eq, arith, eq_iff,
}
use wdc_backend.Rls.{RlsContext}
use wdc_backend.Database.{Result, ok, err, OpRow}
use wdc_backend.Sync.{OpResult, SyncBatch, SyncStore, SyncResponse, IdempotencyRow}
use wdc_backend.Sync.Batch.{
  check_idempotency, store_idempotency, one_day, by_report, apply_groups, pulled, answer_batch,
  apply_new_batch, apply_batch,
}

find-new :
    (key : String) (now : Timestamp) (row : IdempotencyRow) (rows : List IdempotencyRow)
    → find (λ k. str_eq k.key key) rows ≡ none
    → row.key ≡ key
    → now < row.expires_at
    → find (λ k. str_eq k.key key && ltb now k.expires_at) (rows ++ (row ∷ [])) ≡ some row
find-new key now row [] h e early = ground (arith, eq_iff row.key key)
find-new key now row (k ∷ rows) h e early = ground (arith, find-new key now row rows)

check-store_idempotency :
    (now now' : Timestamp) (key : String) (response : SyncResponse) (s : SyncStore)
    → find (λ k. str_eq k.key key) s.idempotency_keys ≡ none
    → now' < now + one_day
    → check_idempotency now' key (store_idempotency now key response s) ≡ some response
unfolding check_idempotency store_idempotency
check-store_idempotency now now' key response s new early =
    let row : IdempotencyRow = record {
      key = key;
      response_body = response;
      expires_at = now + one_day;
    } in
    ground (arith, find-new key now' row s.idempotency_keys new refl early)

check_of_find :
    (now : Timestamp) (key : String) (rows : List IdempotencyRow)
    → find (λ k. str_eq k.key key) rows ≡ none
    → find (λ k. str_eq k.key key && ltb now k.expires_at) rows ≡ none
check_of_find now key [] h = refl
check_of_find now key (k ∷ rows) h = ground (arith, check_of_find now key rows)

answer_batch-replay :
    (now now' : Timestamp) (batch : SyncBatch) (results : List OpResult)
    (page : Result (Option (List OpRow))) (s : SyncStore) {response : SyncResponse}
    → find (λ k. str_eq k.key batch.idempotency_key) s.idempotency_keys ≡ none
    → now' < now + one_day
    → (answer_batch now batch results page s).0 ≡ ok response
    → check_idempotency now' batch.idempotency_key (answer_batch now batch results page s).1
      ≡ some response
unfolding answer_batch
answer_batch-replay now now' batch results (err e) s new early done = cc done
answer_batch-replay now now' batch results (ok page) s new early done =
    check-store_idempotency now now' batch.idempotency_key _ s new early ∙ ground (arith, done)

apply_new_batch-replay :
    (actor : RlsContext) (now now' : Timestamp) (batch : SyncBatch) (s : SyncStore)
    {response : SyncResponse}
    → find (λ k. str_eq k.key batch.idempotency_key) s.idempotency_keys ≡ none
    → now' < now + one_day
    → (apply_new_batch actor now batch s).0 ≡ ok response
    → check_idempotency now' batch.idempotency_key (apply_new_batch actor now batch s).1
      ≡ some response
unfolding apply_new_batch
apply_new_batch-replay actor now now' batch s new early done =
    let (results, tables) = apply_groups actor now (by_report batch.ops []) s.tables in
    answer_batch-replay now now' batch results (pulled actor batch.since_cursor tables)
      (record s { tables = tables }) new early done

apply_batch-new :
    (actor : RlsContext) (now : Timestamp) (batch : SyncBatch) (s : SyncStore)
    → find (λ k. str_eq k.key batch.idempotency_key) s.idempotency_keys ≡ none
    → apply_batch actor now batch s ≡ apply_new_batch actor now batch s
unfolding apply_batch check_idempotency
apply_batch-new actor now batch s new =
    ground (arith, check_of_find now batch.idempotency_key s.idempotency_keys new)

-- After a batch that returned a response, under a key that was not in the table, any batch under
-- this key, from anyone, with whatever ops and within a day, returns the same response and changes
-- nothing. (The repository's conventions and the comment of its test promise an error where the ops
-- differ; the code does not compare them.)
pub apply_batch-replay :
    (actor other : RlsContext) (now now' : Timestamp) (batch again : SyncBatch) (s : SyncStore)
    (response : SyncResponse)
    → find (λ k. str_eq k.key batch.idempotency_key) s.idempotency_keys ≡ none
    → again.idempotency_key ≡ batch.idempotency_key
    → now' < now + one_day
    → (apply_batch actor now batch s).0 ≡ ok response
    → apply_batch other now' again (apply_batch actor now batch s).1
      ≡ (ok response, (apply_batch actor now batch s).1)
unfolding apply_batch
apply_batch-replay actor other now now' batch again s response new same early done =
    let first = apply_batch-new actor now batch s new in
    let returned : (apply_new_batch actor now batch s).0 ≡ ok response =
      sym (ap (λ r. r.0) first) ∙ done in
    let stored : check_idempotency now' again.idempotency_key (apply_new_batch actor now batch s).1
        ≡ some response =
      rw same (apply_new_batch-replay actor now now' batch s new early returned) in
    rw first (ground (arith, stored))
