-- ===== src/Messaging/Retry/Unreachable.antt =====
-- The retry table keeps no client id, so a job that comes out of it names no connection.
use Prim.Native.String.{◌++◌ as text_append}
use text.Mathlib.TextLemmas.{append-ne-nil_of_right_ne-nil, append-eq-nil_iff}
use krampus.Prelude.{
  subst, ℕ, suc, ◌≤◌, ◌≡◌, ◌≢◌, refl, sym, ◌∙◌, ap, String, false, List, [], ◌∷◌, arith, some, none,
  inl, inr, All, eq_iff, length, length-filter-le, not, str_eq, ◌&&◌,
}
use krampus.Domain.Errors.{Error, ok, err, is_retryable, Result-cases, error_text}
use krampus.Domain.Message.{DeliveryJob, GoLib, unmarshal_message}
use krampus.Storage.Fault.{Fault}
use krampus.Storage.RetryQueue.{RetryRow, delete_job, decode_rows, ready_rows}
use krampus.Realtime.Client.{TransportClient, websocket, sse, conn_id}
use krampus.Realtime.Manager.{Manager, find_client}
use krampus.Realtime.Manager.Lookup.{find_client-eq-ok}
use krampus.Realtime.Manager.Linked.{IsLinked}
use krampus.Realtime.Delivery.{World, process_delivery}
use krampus.Realtime.Delivery.Outcome.{process_delivery_error, process_delivery_not_retryable}
use krampus.Messaging.Retry.{
  Round, retry_one, retry_all, process_batch, after_error, bury, forget, batch_size,
}

ne_nil_left : (p q : String) → p ≢ "" → text_append p q ≢ ""
ne_nil_left p q h e = h ((append-eq-nil_iff {p = p} {q = q}).0 e).0

conn_id-ne-nil : (lib : GoLib) (t : ℕ) (c : TransportClient) → conn_id lib t c ≢ ""
unfolding conn_id
conn_id-ne-nil lib t (websocket c) =
    append-ne-nil_of_right_ne-nil c.remote_addr
      (ne_nil_left "-" c.user_id (ground (arith, eq_iff "-" "")))
conn_id-ne-nil lib t (sse c) = ne_nil_left "sse-" _ (ground (arith, eq_iff "sse-" ""))

-- In a linked registry no connection has the empty id.
find_client_empty :
    (lib : GoLib) (m : Manager) (u : String) (c : ℕ) → IsLinked lib m → find_client u "" m ≢ ok c
find_client_empty lib m u c h e =
    conn_id-ne-nil lib 0 (m.clients c) (h.keyed u "" c 0 ((find_client-eq-ok u "" c m).0 e)).1

undeliverable :
    (lib : GoLib) (r : Round) (job : DeliveryJob) (w : World)
    → IsLinked lib w.manager
    → job.client_id ≡ ""
    → (e : Error) × ((process_delivery lib r.delivery job w).0 ≡ err e)
undeliverable lib r job w h empty =
    elim (Result-cases (find_client job.user_id job.client_id w.manager)) [
      | inl (e, f) ↦ (e, unfold process_delivery in ground arith)
      | inr (c, f) ↦ absurd (
          find_client_empty lib w.manager job.user_id c h
            (subst (λ i. find_client job.user_id i w.manager ≡ ok c) empty f))
    ]

retry_one_failed :
    (lib : GoLib) (r : Round) (job : DeliveryJob) (w : World) (e : Error)
    → (process_delivery lib r.delivery job w).0 ≡ err e
    → retry_one lib r job w ≡ after_error lib r job e (process_delivery lib r.delivery job w).1
unfolding retry_one
retry_one_failed lib r job w e h = ground arith

after_error_refused :
    (lib : GoLib) (r : Round) (job : DeliveryJob) (e : Error) (w : World)
    → is_retryable e ≡ false
    → after_error lib r job e w ≡ bury lib r (error_text e) job w
unfolding after_error
after_error_refused lib r job e w h = rw h

-- In a linked registry, a job with no client id is not delivered: it is copied to the dead-letter
-- table and its rows are deleted.
retry_one_buries :
    (lib : GoLib) (r : Round) (job : DeliveryJob) (w : World)
    → IsLinked lib w.manager
    → job.client_id ≡ ""
    → (e : Error) × (retry_one lib r job w ≡ bury lib r (error_text e) job w)
retry_one_buries lib r job w h empty =
    let (e, failed) = undeliverable lib r job w h empty in
    let same = process_delivery_error lib r.delivery job w e failed in
    let refused = process_delivery_not_retryable lib r.delivery job w e failed in
    (
      e,
      retry_one_failed lib r job w e failed
          ∙ ap (after_error lib r job e) same
          ∙ after_error_refused lib r job e w refused,
    )

decode_rows_anonymous :
    (lib : GoLib) (rows : List RetryRow) → All (λ job. job.client_id ≡ "") (decode_rows lib rows)
unfolding decode_rows
decode_rows_anonymous lib [] = tt
decode_rows_anonymous lib (r ∷ rows) = elim (Result-cases (unmarshal_message lib r.payload)) [
  | inl (e, f) ↦ rw (f, decode_rows) (decode_rows_anonymous lib rows)
  | inr (msg, f) ↦ rw (f, decode_rows) (refl, decode_rows_anonymous lib rows)
]

-- What a round leaves alone: clients, registry, queue and statuses; the retry table only shrinks.
pub record Idle (w w' : World) : Type 0 where
  pub manager : w'.manager ≡ w.manager
  pub statuses : w'.statuses ≡ w.statuses
  pub shrunk : length w'.retries ≤ length w.retries

length-delete_job :
    (fault : Fault) (m u : String) (rows : List RetryRow)
    → length (delete_job fault m u rows).1 ≤ length rows
unfolding delete_job
length-delete_job none m u rows =
    length-filter-le (λ r. not (str_eq r.message_id m && str_eq r.user_id u)) rows
length-delete_job (some e) m u rows = omega arith

bury-Idle :
    (lib : GoLib) (r : Round) (reason : String) (job : DeliveryJob) (w : World)
    → Idle w (bury lib r reason job w)
unfolding bury forget
bury-Idle lib r reason job w = record {
  manager = refl;
  statuses = refl;
  shrunk = length-delete_job r.delete_fault job.message.id job.user_id w.retries;
}

retry_all-Idle :
    (lib : GoLib) (rounds : ℕ → Round) (i : ℕ) (jobs : List DeliveryJob) (w : World)
    → IsLinked lib w.manager
    → All (λ job. job.client_id ≡ "") jobs
    → Idle w (retry_all lib rounds i jobs w)
unfolding retry_all
retry_all-Idle lib rounds i [] w h a = record {
  manager = refl;
  statuses = refl;
  shrunk = omega arith;
}
retry_all-Idle lib rounds i (job ∷ jobs) w h a =
    let (e, buried) = retry_one_buries lib (rounds i) job w h a.0 in
    let first : Idle w (retry_one lib (rounds i) job w) =
      rw buried (bury-Idle lib (rounds i) (error_text e) job w) in
    let rest =
      retry_all-Idle lib rounds (suc i) jobs (retry_one lib (rounds i) job w)
        (subst (IsLinked lib) (sym first.manager) h) a.1 in
    record {
      manager = rest.manager ∙ first.manager;
      statuses = rest.statuses ∙ first.statuses;
      shrunk = omega arith;
    }

-- The retry worker never delivers anything: in a linked registry a whole batch, whatever the
-- database answers and the clock says, leaves every client, the registry and all statuses as they
-- are, and puts nothing back into the retry table.
pub process_batch-Idle :
    (lib : GoLib) (fault : Fault) (now : ℕ) (rounds : ℕ → Round) (w : World)
    → IsLinked lib w.manager
    → Idle w (process_batch lib fault now rounds w)
unfolding process_batch
process_batch-Idle lib none now rounds w h =
    let rows = ready_rows now batch_size w.retries in
    retry_all-Idle lib rounds 0 (decode_rows lib rows) w h (decode_rows_anonymous lib rows)
process_batch-Idle lib (some e) now rounds w h = record {
  manager = refl;
  statuses = refl;
  shrunk = omega arith;
}
