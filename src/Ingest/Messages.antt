-- ===== src/Ingest/Messages.antt =====
-- What one message of the RF agent does, on every path of the loop in `consume_source` of
-- spectrum-ingest/app.py.
use diploma_munka.Prelude.{
  ℕ, ◌+◌, ◌-◌, ◌≤◌, ◌≡◌, refl, sym, ap, ◌∙◌, Option-cases, Bool-cases, inl, inr, Bool, Option, none,
  some, arith, length, length-map, ltb, not_ltb, String, len,
}
use diploma_munka.Prelude.Int.{ℤ}
use diploma_munka.Prelude.Floats.{Floats}
use diploma_munka.Prelude.Results.{Result, ok, raise}
use diploma_munka.Ingest.Json.{Json, null, bool, int, float, str, arr, obj, Fields}
use diploma_munka.Ingest.Frame.{Fault, invalid, invalid_key, exception, validate_frame}
use diploma_munka.Ingest.Accepted.{IsFrame, validate_frame_sound}
use diploma_munka.Ingest.Fanout.{Client, fan_out}
use diploma_munka.Ingest.State.{IngestState, Payload, text, binary, publish, count_invalid}
use diploma_munka.Ingest.Source.{accept, note_frame, refuse, on_frame, on_text, on_message}
use diploma_munka.Ingest.Clients.{IsSound, FannedOut, fan_out_lem}

module _ (fl : Floats) {Stamp : Type 0} (parse_iso : String → Option Stamp)
    (has_timezone : Stamp → Bool) (loads : String → Option (Json fl.F)) (max_points : ℤ)
    (max_bytes : ℕ) where
  open fl use {F}

  -- The message was published: it holds a frame that passed the check, it is counted as received
  -- and not as invalid, kept as the last payload, and handed to every browser.
  pub record Published (payload : String) (s t : IngestState F) : Type 0 where
    pub fields : Fields F
    pub parsed : loads payload ≡ some (obj fields)
    pub well_formed : IsFrame fl max_points fields
    pub small : len payload ≤ max_bytes
    pub received : t.metrics.received_frames ≡ s.metrics.received_frames + 1
    pub no_invalid : t.metrics.invalid_frames ≡ s.metrics.invalid_frames
    pub last : t.last_payload ≡ some payload
    pub browsers : t.metrics.connected_clients ≡ s.metrics.connected_clients
    pub no_error : t.last_error ≡ none
    pub handed_on :
        FannedOut payload s.clients (t.clients, t.metrics.dropped_frames - s.metrics.dropped_frames)

  -- The message left no trace but in the counter of invalid frames and the error text.
  pub record Refused (s t : IngestState F) : Type 0 where
    pub received : t.metrics.received_frames ≡ s.metrics.received_frames
    pub invalid : t.metrics.invalid_frames ≡ s.metrics.invalid_frames + 1
    pub last : t.last_payload ≡ s.last_payload
    pub clients : t.clients ≡ s.clients
    pub browsers : t.metrics.connected_clients ≡ s.metrics.connected_clients
    pub sequences : t.last_sequences ≡ s.last_sequences

  -- What may come of a message.
  pub data Outcome (s : IngestState F) (result : IngestState F × Option String) : Type 0 where
    published :
        (payload : String) → Published payload s result.0 → result.1 ≡ none → Outcome s result
    refused : Refused s result.0 → result.1 ≡ none → Outcome s result
    broke : (e : String) → result.1 ≡ some e → result.0 ≡ s → Outcome s result

  refused_lem : (s : IngestState F) → Outcome s (count_invalid s, none)
  unfolding count_invalid
  refused_lem s =
      refused
        (record {
          received = refl;
          invalid = refl;
          last = refl;
          clients = refl;
          browsers = refl;
          sequences = refl;
        })
        refl

  refuse_lem : (e : Fault) (s : IngestState F) → Outcome s (refuse fl e s)
  unfolding refuse count_invalid
  refuse_lem (invalid e) s =
      refused
        (record {
          received = refl;
          invalid = refl;
          last = refl;
          clients = refl;
          browsers = refl;
          sequences = refl;
        })
        refl
  refuse_lem (invalid_key e) s =
      refused
        (record {
          received = refl;
          invalid = refl;
          last = refl;
          clients = refl;
          browsers = refl;
          sequences = refl;
        })
        refl
  refuse_lem (exception e) s = broke e refl refl

  accept_lem :
      (now latency : F) (payload : String) (fs : Fields F) (s : IngestState F)
      → len payload ≤ max_bytes
      → loads payload ≡ some (obj fs)
      → IsFrame fl max_points fs
      → IsSound s
      → Published payload s (accept fl now latency payload fs s)
  unfolding accept publish note_frame
  accept_lem now latency payload fs s small parsed w sound = record {
    fields = fs;
    parsed = parsed;
    well_formed = w;
    small = small;
    received = refl;
    no_invalid = refl;
    last = refl;
    no_error = refl;
    browsers = refl;
    handed_on =
        let n = (fan_out payload s.clients).1 in
        let e : s.metrics.dropped_frames + n - s.metrics.dropped_frames ≡ n = omega arith in
        rw e (fan_out_lem payload s.clients sound.kept);
  }

  on_object_lem :
      (now latency : F) (payload : String) (frame : Json F) (s : IngestState F)
      → len payload ≤ max_bytes
      → loads payload ≡ some frame
      → IsSound s
      → Outcome s (
          on_frame fl parse_iso has_timezone loads max_points max_bytes now latency payload frame s)
  unfolding on_frame
  on_object_lem now latency payload (obj fs) s small parsed sound =
      go (validate_frame fl parse_iso has_timezone max_points (obj fs)) refl
    where
      go :
          (r : Result Fault (Unit {0}))
          → validate_frame fl parse_iso has_timezone max_points (obj fs) ≡ r
          → Outcome s (elim r [
            | ok _ ↦ (accept fl now latency payload fs s, none)
            | raise e ↦ refuse fl e s
          ])
      go (ok u) e =
          published payload
            (accept_lem now latency payload fs s small parsed
              (validate_frame_sound fl parse_iso has_timezone max_points fs e) sound)
            refl
      go (raise e') e = refuse_lem e' s
  on_object_lem now latency payload null s small parsed sound =
      unfold validate_frame in (refuse_lem _ s)
  on_object_lem now latency payload (bool b) s small parsed sound =
      unfold validate_frame in (refuse_lem _ s)
  on_object_lem now latency payload (int n) s small parsed sound =
      unfold validate_frame in (refuse_lem _ s)
  on_object_lem now latency payload (float x) s small parsed sound =
      unfold validate_frame in (refuse_lem _ s)
  on_object_lem now latency payload (str x) s small parsed sound =
      unfold validate_frame in (refuse_lem _ s)
  on_object_lem now latency payload (arr vs) s small parsed sound =
      unfold validate_frame in (refuse_lem _ s)

  on_text_lem :
      (now latency : F) (payload : String) (s : IngestState F)
      → IsSound s
      → Outcome s
          (on_text fl parse_iso has_timezone loads max_points max_bytes now latency payload s)
  unfolding on_text
  on_text_lem now latency payload s sound = elim (Bool-cases (ltb max_bytes (len payload))) [
    | inl large ↦ rw large (refused_lem s)
    | inr small ↦ elim (Option-cases (loads payload)) [
      | inl e ↦ rw (small, e) (refused_lem s)
      | inr (frame, e) ↦
          rw (small, e)
            (on_object_lem now latency payload frame s (not_ltb max_bytes (len payload) small) e
              sound)
    ]
  ]

  -- Every message has one of three outcomes. It is published, and then it is a text within the size
  -- limit that parses to a well-formed frame; it is refused, and then it is counted once as invalid
  -- and leaves the browsers, the last payload and the sequence numbers as they were; or it ends the
  -- connection with an exception, and then it changes nothing. The state before is a sound one.
  pub on_message_lem :
      (now latency : F) (message : Payload) (s : IngestState F)
      → IsSound s
      → Outcome s
          (on_message fl parse_iso has_timezone loads max_points max_bytes now latency message s)
  unfolding on_message
  on_message_lem now latency (text payload) s sound = on_text_lem now latency payload s sound
  on_message_lem now latency (binary bytes) s sound = refused_lem s

  pub Outcome-IsSound :
      (s : IngestState F) (result : IngestState F × Option String)
      → IsSound s
      → Outcome s result
      → IsSound result.0
  Outcome-IsSound s result h (published payload p e) = record {
    kept = p.handed_on.kept;
    counted =
        p.browsers
        ∙ h.counted
        ∙ sym (length-map (λ (c : Client String). c.identity) s.clients)
        ∙ ap length (sym p.handed_on.same)
        ∙ length-map (λ (c : Client String). c.identity) result.0.clients;
  }
  Outcome-IsSound s result h (refused r e) = record {
    kept = rw r.clients h.kept;
    counted = r.browsers ∙ h.counted ∙ ap length (sym r.clients);
  }
  Outcome-IsSound s result h (broke why e same) = rw same h
