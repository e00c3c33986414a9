-- ===== src/NodeApi/Statuses.antt =====
-- The statuses of uploads that are accepted and end in any order.
use kairos_p2p_engine.Base.{
  ◌≡◌, refl, ◌∙◌, Bool, true, false, ◌&&◌, Option, none, some, List, [], ◌∷◌, Bytes, codes, ◌==◌,
  arith, Option-cases, inl, inr, if◌then◌else◌,
}
use kairos_p2p_engine.Badger.{BadgerLaws, IsReliable}
use kairos_p2p_engine.Database.Laws.{stored, stored-put, put_data_ok, get_data_lem}
use kairos_p2p_engine.Process.{Process, Response, method_get, method_post, not_found, ok_response}
use kairos_p2p_engine.Process.Json.{Codec}
use kairos_p2p_engine.Files.StreamAndUpload.{
  StreamError, blocked, hashing_failed, seeking_failed, stat_failed, drand_network_error,
  reading_failed, getting_nodes_failed, getting_round_failed, upload_failed,
}
use kairos_p2p_engine.NodeApi.{
  UploadStatus, Request, Form, query_get, is_empty, http_error, is_method, upload_status,
  save_status, put_file, check_status, end_status,
}

-- A call of `PutFile` with a new identifier, or the end of the worker of an earlier one.
pub data Event : Type 0 where
  put : Request → Option Form → Bytes → Event
  worker_ended : Bytes → Option StreamError → Event

abbrev pub is_accepted : Request → Option Form → Bool
is_accepted r none = false
is_accepted r (some form) = is_method r.method method_post && (form.created && form.copied)

-- The status of one upload, as a state machine over the events that name it.
abbrev pub ended_as : Option StreamError → Option Bytes → Option Bytes
ended_as none s = some (codes "completed")
ended_as (some blocked) s = s
ended_as (some _) s = some (codes "error")

abbrev pub next_status : Bytes → Option Bytes → Event → Option Bytes
next_status id s (put r form new) =
    if is_accepted r form && (new == id) then some (codes "processing") else s
next_status id s (worker_ended old e) = if old == id then ended_as e s else s

abbrev pub status_after : Bytes → Option Bytes → List Event → Option Bytes
status_after id s [] = s
status_after id s (e ∷ events) = status_after id (next_status id s e) events

module _ {D F : Type 0} (self : Process D F) (statuses : Codec UploadStatus) where
  abbrev pub after_event : D → Event → D
  after_event db (put r form id) = (put_file self statuses db r form id).0
  after_event db (worker_ended id e) = end_status self statuses db id e

  abbrev pub after_events : D → List Event → D
  after_events db [] = db
  after_events db (e ∷ events) = after_events (after_event db e) events

  abbrev pub status_text : Option Bytes → Option Bytes
  status_text none = none
  status_text (some s) = some (statuses.marshal (record { status = s }))

  abbrev pub status_response : Option Bytes → Response
  status_response none = http_error not_found (codes "Status not found")
  status_response (some s) = ok_response (statuses.marshal (record { status = s }))

  text_if :
      (b : Bool) (status : Bytes) (s other : Option Bytes)
      → other ≡ status_text s
      → (if b then some (statuses.marshal (record { status = status })) else other)
        ≡ status_text (if b then some status else s)
  text_if true status s other h = refl
  text_if false status s other h = h

  module _ {laws : BadgerLaws self.badger} (reliable : IsReliable laws) where
    saved_status :
        (db : D) (id j status : Bytes)
        → stored laws (save_status self statuses db id status) upload_status j ≡ (
            if id == j
            then some (statuses.marshal (record { status = status }))
            else stored laws db upload_status j)
    unfolding save_status
    saved_status db id j status =
        let text = statuses.marshal (record { status = status }) in
        ground (
          arith,
          stored-put laws db upload_status upload_status id j text refl refl,
          put_data_ok laws reliable db upload_status id text,
        )

    stored-put_file :
        (db : D) (r : Request) (form : Option Form) (id j : Bytes)
        → stored laws (put_file self statuses db r form id).0 upload_status j ≡ (
            if is_accepted r form && (id == j)
            then status_text (some (codes "processing"))
            else stored laws db upload_status j)
    unfolding put_file
    stored-put_file db r none id j = ground arith
    stored-put_file db r (some form) id j =
        ground (arith, saved_status db id j (codes "processing"))

    written :
        (db : D) (id j status : Bytes) (s : Option Bytes)
        → stored laws db upload_status j ≡ status_text s
        → stored laws (save_status self statuses db id status) upload_status j
          ≡ status_text (if id == j then some status else s)
    written db id j status s h = saved_status db id j status ∙ text_if (id == j) status s _ h

    stored-end_status :
        (db : D) (id j : Bytes) (e : Option StreamError) (s : Option Bytes)
        → stored laws db upload_status j ≡ status_text s
        → stored laws (end_status self statuses db id e) upload_status j
          ≡ status_text (if id == j then ended_as e s else s)
    unfolding end_status
    stored-end_status db id j none s h = written db id j (codes "completed") s h
    stored-end_status db id j (some blocked) s h = ground arith
    stored-end_status db id j (some hashing_failed) s h = written db id j (codes "error") s h
    stored-end_status db id j (some seeking_failed) s h = written db id j (codes "error") s h
    stored-end_status db id j (some stat_failed) s h = written db id j (codes "error") s h
    stored-end_status db id j (some drand_network_error) s h = written db id j (codes "error") s h
    stored-end_status db id j (some reading_failed) s h = written db id j (codes "error") s h
    stored-end_status db id j (some (getting_nodes_failed x)) s h =
        written db id j (codes "error") s h
    stored-end_status db id j (some (getting_round_failed x)) s h =
        written db id j (codes "error") s h
    stored-end_status db id j (some (upload_failed x)) s h = written db id j (codes "error") s h

    events_stored :
        (db : D) (events : List Event) (id : Bytes) (s : Option Bytes)
        → stored laws db upload_status id ≡ status_text s
        → stored laws (after_events db events) upload_status id
          ≡ status_text (status_after id s events)
    events_stored db [] id s h = h
    events_stored db (put r form new ∷ events) id s h =
        events_stored (put_file self statuses db r form new).0 events id
          (next_status id s (put r form new))
          (stored-put_file db r form new id
            ∙ text_if (is_accepted r form && (new == id)) (codes "processing") s _ h)
    events_stored db (worker_ended old e ∷ events) id s h =
        events_stored (end_status self statuses db old e) events id
          (next_status id s (worker_ended old e)) (stored-end_status db old id e s h)

    -- On a store that does not fail, for a GET request with the identifier of an upload whose status was
    -- `s` or that had none: after any sequence of calls of `PutFile` and of ends of workers, in any
    -- order, `CheckStatus` answers with what the state machine of the upload's status gives:
    -- "processing" once it was accepted, "completed" or "error" once its worker has ended, still
    -- "processing" when the worker is blocked, and 404 while there is none.
    pub check_status-after_events :
        (db : D) (events : List Event) (r : Request) (s : Option Bytes)
        → is_method r.method method_get ≡ true
        → is_empty (query_get r (codes "id")) ≡ false
        → stored laws db upload_status (query_get r (codes "id")) ≡ status_text s
        → check_status self statuses (after_events db events) r
          ≡ status_response (status_after (query_get r (codes "id")) s events)
    unfolding check_status
    check_status-after_events db events r s get given h =
        let id = query_get r (codes "id") in
        rw (get, given)
          (rw (get_data_lem laws reliable (after_events db events) upload_status id) (
            rw (events_stored db events id s h) (elim (Option-cases (status_after id s events)) [
              | inl e ↦ rw e refl
              | inr (t, e) ↦ rw e refl
            ])))
