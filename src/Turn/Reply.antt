-- ===== src/Turn/Reply.antt =====
-- A reply that is done is stored as it was shown.
use mathlib.Core.Bool.{true≢false}
use sabermatic_dev.Prelude.{
  ℕ, ◌≡◌, refl, sym, ap, ◌∙◌, inl, inr, Bool, true, false, ◌||◌, Option, some, none, List, [], ◌∷◌,
  ◌++◌, arith, if◌then◌else◌, Bool-cases, String, str_eq,
}
use sabermatic_dev.Store.Rows.{Db, Message, interviewer}
use sabermatic_dev.Store.Sessions.{acquire_generating_status, release_generating_status}
use sabermatic_dev.Session.Errors.{Result, ok, err}
use sabermatic_dev.Turn.Stream.{
  Outside, Run, Event, LlmStream, refused, tokens, Fan, pump, no_tokens, on_token, on_error,
  persist, replied, streamed, stream_interviewer_response, interviewer_insert, release_query,
  acquire_query, reply, after, candidate_insert,
}
use sabermatic_dev.Turn.Input.{
  Request, voice_input, text_input, no_input, Heard, heard, rejected, candidate_input, voice,
  transcribed, transcribe_with_retry, valid_audio_mime,
}
use sabermatic_dev.Turn.{
  load, loaded, answered, take_turn, run_turn, process_input, persist_candidate, release_on_exit,
  run_acquired, execute_turn, is_opening_question, is_crash_recovery, first_message, said,
}
use sabermatic_dev.Turn.Shown.{
  shown, is_done, last, shown-append, is_done-append, last-append, InStep, pump-InStep,
  with_message, persist_cases,
}

-- The last message is a reply of the session, with the text that was shown.
abbrev pub StoredReply : ℕ → List Event → Db → Type 0
StoredReply id es db =
    (m : Message) × (last db.messages ≡ some m)
    × (m.session ≡ id)
    × (m.role ≡ interviewer)
    × (m.content ≡ shown "" es)

abbrev KeepsWord : ℕ → Run → Type 0
KeepsWord id r = is_done r.events ≡ true → StoredReply id r.events r.db

record Quiet (es : List Event) : Type 0 where
  no_done : is_done es ≡ false
  no_text : shown "" es ≡ ""

abbrev QuietInput : Heard → Type 0
QuietInput (rejected code) = Unit {0}
QuietInput (heard es content method) = Quiet es

quiet_input : (out : Outside) (request : Request) → QuietInput (candidate_input out request)
unfolding candidate_input
quiet_input out no_input = tt
quiet_input out (text_input content) = elim (Bool-cases (str_eq (out.trim_space content) "")) [
  | inl blank ↦ rw blank tt
  | inr some_text ↦ rw some_text (unfold is_done shown in record { no_done = refl; no_text = refl })
]
quiet_input out (voice_input mime audio) = heard_voice (valid_audio_mime (out.base_mime mime)) audio
  where
    heard_text : (o : Option String) → QuietInput (transcribed out o)
    heard_text none = unfold transcribed in tt
    heard_text (some text) = elim (Bool-cases (str_eq (out.trim_space text) "")) [
      | inl blank ↦ rw (transcribed, blank) tt
      | inr some_text ↦
          rw (transcribed, some_text)
            (unfold is_done shown in record { no_done = refl; no_text = refl })
    ]

    heard_voice : (o : Option String) (audio : List ℕ) → QuietInput (voice out o audio)
    heard_voice none audio = unfold voice in tt
    heard_voice (some ext) [] = unfold voice in tt
    heard_voice (some ext) (b ∷ bs) =
        unfold voice in heard_text (transcribe_with_retry out (b ∷ bs) ext)

same_messages :
    (out : Outside) (id : ℕ) (r : Run) → (release_on_exit out id r).messages ≡ r.db.messages
unfolding release_on_exit release_generating_status
same_messages out id r = ground arith

module _ (out : Outside) (id : ℕ) where
  release_messages :
      (b : Bool) (db : Db)
      → (if b then release_generating_status id db else db).messages ≡ db.messages
  unfolding release_generating_status
  release_messages true db = refl
  release_messages false db = refl

  broken : (text : String) (fan : Fan) → InStep fan → is_done (on_error text fan).sent ≡ false
  unfolding on_error is_done
  broken text fan h = is_done-append fan.sent _ ∙ rw h.open_end refl

  pump_broken :
      (ts : List String) (e : String) (fan : Fan)
      → InStep fan
      → is_done (pump ts (some e) fan).sent ≡ false
  unfolding pump
  pump_broken [] e fan h = broken e fan h
  pump_broken (t ∷ ts) e fan h =
      pump_broken ts e (on_token t fan) (unfold pump in pump-InStep (t ∷ []) fan h)

  InStep-no_tokens : InStep no_tokens
  unfolding shown is_done
  InStep-no_tokens = record { same = refl; open_end = refl }

  KeepsWord-replied :
      (sequence : ℕ) (fan : Fan) (db : Db)
      → InStep fan
      → KeepsWord id (
          replied out id db.next_id fan db
            (persist out interviewer_insert (reply id sequence fan.text db) db))
  unfolding replied is_done shown
  KeepsWord-replied sequence fan db h done =
      let m = reply id sequence fan.text db in
      elim (persist_cases out interviewer_insert m db) [
        | inl failed ↦
            absurd
              (true≢false (sym done ∙ rw failed (is_done-append fan.sent _ ∙ rw h.open_end refl)))
        | inr stored ↦ (
          m,
          rw stored (
              ap last (release_messages (out.answers release_query) (with_message m db))
              ∙ last-append db.messages m),
          refl,
          refl,
          rw stored (sym (shown-append fan.sent _ "" ∙ h.same)),
        )
      ]

  KeepsWord-streamed :
      (sequence : ℕ) (db : Db) (s : LlmStream) → KeepsWord id (streamed out id sequence db s)
  unfolding streamed
  KeepsWord-streamed sequence db (refused e) done =
      absurd (true≢false (sym done ∙ broken e no_tokens InStep-no_tokens))
  KeepsWord-streamed sequence db (tokens ts (some e)) done =
      absurd (true≢false (sym done ∙ pump_broken ts e no_tokens InStep-no_tokens))
  KeepsWord-streamed sequence db (tokens ts none) done =
      KeepsWord-replied sequence (pump ts none no_tokens) db
        (pump-InStep ts no_tokens InStep-no_tokens) done

  KeepsWord-after :
      (es : List Event) (r : Run) → Quiet es → KeepsWord id r → KeepsWord id (after es r)
  KeepsWord-after es r q h done =
      let undone = is_done-append es r.events ∙ ap (λ b. b || is_done r.events) q.no_done in
      let unheard = shown-append es r.events "" ∙ ap (λ text. shown text r.events) q.no_text in
      let (m, at_end, own, role, same) = h (sym undone ∙ done) in
      (m, at_end, own, role, same ∙ sym unheard)

  Quiet-first_message : (ms : List Message) → Quiet (first_message ms)
  unfolding first_message is_done shown
  Quiet-first_message ms = record { no_done = ground arith; no_text = ground arith }

  KeepsWord-answered :
      (messages : List Message) (m : Message) (db : Db) (o : Option Db)
      → KeepsWord id (answered out id messages m db o)
  unfolding answered stream_interviewer_response
  KeepsWord-answered messages m db none done = absurd (unfold is_done in ground arith)
  KeepsWord-answered messages m db (some db') done =
      KeepsWord-after (first_message messages)
        (stream_interviewer_response out id (messages ++ m ∷ []) m.seq db')
        (Quiet-first_message messages) (KeepsWord-streamed m.seq db' (out.llm (messages ++ m ∷ [])))
        done

  KeepsWord-process_input :
      (messages : List Message) (sequence : ℕ) (x : Heard) (db : Db)
      → QuietInput x
      → KeepsWord id (process_input out id messages sequence x db)
  unfolding process_input persist_candidate
  KeepsWord-process_input messages sequence (rejected code) db q done =
      absurd (unfold is_done in ground arith)
  KeepsWord-process_input messages sequence (heard es content method) db q done =
      KeepsWord-after es (persist_candidate out id messages sequence content method db) q
        (KeepsWord-answered messages _ db
          (persist out candidate_insert (said id sequence content method db) db))
        done

  KeepsWord-loaded :
      (request : Request) (db : Db) (r : Result (List Message × ℕ))
      → KeepsWord id (loaded out id request db r)
  unfolding loaded take_turn stream_interviewer_response
  KeepsWord-loaded request db (err e) = λ done. absurd (unfold is_done in ground arith)
  KeepsWord-loaded request db (ok (messages, sequence)) =
      elim (Bool-cases (is_opening_question messages request || is_crash_recovery messages)) [
        | inl at_once ↦ rw at_once (KeepsWord-streamed sequence db (out.llm messages))
        | inr afterwards ↦ rw afterwards (
            KeepsWord-process_input messages sequence (candidate_input out request) db
              (quiet_input out request))
      ]

  -- A turn that tells the client that the reply is done has stored it: the last message is the
  -- interviewer's, belongs to the session and has exactly the text that the client was shown.
  pub execute_turn_stores :
      (request : Request) (db : Db)
      → let (result, es, db') = execute_turn out id request db in
        is_done es ≡ true → StoredReply id es db'
  unfolding execute_turn
  execute_turn_stores request db = elim (Bool-cases (out.answers acquire_query)) [
    | inl answers ↦ rw answers (go (acquire_generating_status id db))
    | inr silent ↦ rw silent (λ done. absurd (unfold is_done in ground arith))
  ]
    where
      exit :
          (r : Run)
          → KeepsWord id r
          → is_done r.events ≡ true
          → StoredReply id r.events (release_on_exit out id r)
      exit r h done =
          let (m, at_end, own, role, same) = h done in
          (m, ap last (same_messages out id r) ∙ at_end, own, role, same)

      go :
          (a : Db × Option ℕ)
          → is_done (run_acquired out id request a).1 ≡ true
          → StoredReply id (run_acquired out id request a).1 (run_acquired out id request a).2
      go (d, none) done = absurd (unfold is_done run_acquired in ground arith)
      go (d, some row) done =
          unfold run_acquired run_turn in
          exit (loaded out id request d (load out id d))
            (KeepsWord-loaded request d (load out id d)) done
