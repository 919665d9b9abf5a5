-- ===== src/Tests/Turns.antt =====
-- The theorems on turns at concrete data.
use sabermatic_dev.Prelude.{List, some, ℕ, arith, ◌≡◌, ◌≢◌, refl, true, none, [], ◌∷◌, ◌++◌}
use sabermatic_dev.Store.Rows.{Db, active}
use sabermatic_dev.Store.Sessions.{acquire_generating_status}
use sabermatic_dev.Store.Messages.{is_candidate_message, get_messages_by_session}
use sabermatic_dev.Session.Errors.{ok}
use sabermatic_dev.Turn.Stream.{Outside, tokens}
use sabermatic_dev.Turn.Input.{text_input, candidate_input}
use sabermatic_dev.Turn.{execute_turn, is_opening_question, is_crash_recovery}
use sabermatic_dev.Turn.Release.{IsReleased, execute_turn_releases}
use sabermatic_dev.Turn.Shown.{is_done}
use sabermatic_dev.Turn.Reply.{StoredReply, execute_turn_stores}
use sabermatic_dev.Turn.Complete.{execute_turn_completes, candidate_row, reply_row}
use sabermatic_dev.Turn.Speech.{Offered, sent, on_token_text}
use sabermatic_dev.Turn.Sentences.{IsCut, on_token_text-IsCut}
use sabermatic_dev.Session.Lifecycle.{Op, acquire, release, later, mark_evaluating, run}
use sabermatic_dev.Session.Lifecycle.Exclusive.{gives_back, acquire_exclusive}
use sabermatic_dev.Tests.Data.{store, interview}

abbrev calm : Outside
calm = record {
  trim_space = λ s. s;
  base_mime = λ s. s;
  transcribe = λ attempt audio ext. none;
  llm = λ ms. tokens ("Tell " ∷ "me more." ∷ []) none;
  answers = λ q. true;
}

abbrev ready : Db
ready = store (interview active ∷ [])

taken : (acquire_generating_status 5 ready).1 ≢ none
unfolding acquire_generating_status
taken = λ e. ground arith

execute_turn_releases_example : IsReleased 5 (execute_turn calm 5 (text_input "A cache.") ready).2
execute_turn_releases_example =
    execute_turn_releases calm 5 refl refl refl (text_input "A cache.") ready taken

execute_turn_completes_example :
    ((execute_turn calm 5 (text_input "A cache.") ready).0 ≡ ok tt)
    × (is_done (execute_turn calm 5 (text_input "A cache.") ready).1 ≡ true)
    × ((execute_turn calm 5 (text_input "A cache.") ready).2.messages
        ≡ ready.messages
          ++ candidate_row calm
              (λ q. refl)
              5
              ready
              "A cache."
              "text"
              ("Tell " ∷ "me more." ∷ [])
              (λ ms. refl)
            ∷ reply_row calm
                (λ q. refl)
                5
                ready
                "A cache."
                "text"
                ("Tell " ∷ "me more." ∷ [])
                (λ ms. refl)
            ∷ [])
unfolding candidate_input get_messages_by_session is_opening_question is_crash_recovery
    is_candidate_message
execute_turn_completes_example =
    execute_turn_completes calm (λ q. refl) 5 (text_input "A cache.") ready taken [] "A cache."
      "text" refl refl ("Tell " ∷ "me more." ∷ []) (λ ms. refl)

finished : is_done (execute_turn calm 5 (text_input "A cache.") ready).1 ≡ true
unfolding candidate_input get_messages_by_session is_opening_question is_crash_recovery
    is_candidate_message
finished =
    (execute_turn_completes calm (λ q. refl) 5 (text_input "A cache.") ready taken [] "A cache."
      "text" refl refl ("Tell " ∷ "me more." ∷ []) (λ ms. refl)).1

execute_turn_stores_example :
    StoredReply 5
      (execute_turn calm 5 (text_input "A cache.") ready).1
      (execute_turn calm 5 (text_input "A cache.") ready).2
execute_turn_stores_example = execute_turn_stores calm 5 (text_input "A cache.") ready finished

abbrev between : List Op
between = acquire 5 ∷ release 6 ∷ later 1000 ∷ mark_evaluating 8 ∷ []

acquire_exclusive_example :
    (acquire_generating_status 5
      (run (λ j js. j ∷ js) between (acquire_generating_status 5 ready).0)).1
    ≡ none
unfolding gives_back
acquire_exclusive_example =
    acquire_exclusive (λ j js. j ∷ js) 5 between ready (omega arith)
      (refl, (refl, (refl, (refl, tt))))

abbrev always : ℕ → Offered
always n = sent

-- "Ok. " and "Go": one sentence, and the rest is kept.
on_token_text-IsCut_example :
    IsCut
      (79 ∷ 107 ∷ 46 ∷ 32 ∷ 71 ∷ 111 ∷ [])
      (on_token_text always (79 ∷ 107 ∷ 46 ∷ []) (32 ∷ 71 ∷ 111 ∷ []))
on_token_text-IsCut_example = on_token_text-IsCut always (79 ∷ 107 ∷ 46 ∷ []) (32 ∷ 71 ∷ 111 ∷ [])

on_token_text_run :
    on_token_text always (79 ∷ 107 ∷ 46 ∷ []) (32 ∷ 71 ∷ 111 ∷ [])
    ≡ some ((79 ∷ 107 ∷ 46 ∷ 32 ∷ [], sent) ∷ [], 71 ∷ 111 ∷ [])
unfolding on_token_text
on_token_text_run = refl
