-- ===== src/Core/Events.antt =====
-- backend/app/core/events.py: the in-process event bus. Handlers are named by values of a type `H`;
-- `run` says what a handler does with a payload. An exception of a handler is logged and dropped,
-- and what the handler wrote to the session before it stays. Logging and the Redis relay are left
-- out: they touch no session.
use Prim.Native.String.{String}
use text.Mathlib.Text.{◌==◌ as str_eq}
use engage_os.Base.{◌≡◌, refl, List, [], ◌∷◌, ◌++◌, map, arith, if◌then◌else◌}
use engage_os.Core.Action.{⊤, ok, Action, pure, ◌>>◌}

-- `_subscribers` and `_async_subscribers`: a dict from event names to handlers.
abbrev pub Handlers : Type 0 → Type 0
Handlers H = List (String × List H)

pub record Bus (H : Type 0) : Type 0 where
  pub subscribers : Handlers H
  pub async_subscribers : Handlers H

module _ {H : Type 0} where
  -- `d.get(event_name, [])`
  abbrev pub handlers_of : String → Handlers H → List H
  handlers_of name [] = []
  handlers_of name ((k, hs) ∷ d) = if str_eq k name then hs else handlers_of name d

  -- `d.setdefault(event_name, []).append(handler)`
  abbrev pub add_handler : String → H → Handlers H → Handlers H
  add_handler name h [] = (name, h ∷ []) ∷ []
  add_handler name h ((k, hs) ∷ d) =
      if str_eq k name then (k, hs ++ h ∷ []) ∷ d else (k, hs) ∷ add_handler name h d

  abbrev pub subscribe : String → H → Bus H → Bus H
  subscribe name h b = record b { subscribers = add_handler name h b.subscribers }

  abbrev pub subscribe_async : String → H → Bus H → Bus H
  subscribe_async name h b = record b { async_subscribers = add_handler name h b.async_subscribers }

module _ {S : Type 0} where
  -- `try: handler(...) except Exception: log`
  abbrev pub swallow : Action S ⊤ → Action S ⊤
  swallow m s = (ok tt, (m s).1)

  abbrev pub run_all : List (Action S ⊤) → Action S ⊤
  run_all [] = pure tt
  run_all (m ∷ ms) = swallow m >> run_all ms

  unfoldable pub emit_event_async :
      {H P : Type 0} → (H → P → Action S ⊤) → Bus H → String → P → Action S ⊤
  emit_event_async run bus name payload =
      run_all (map (λ h. run h payload) (handlers_of name bus.async_subscribers))
      >> run_all (map (λ h. run h payload) (handlers_of name bus.subscribers))

  run_all-ok : (ms : List (Action S ⊤)) (s : S) → (run_all ms s).0 ≡ ok tt
  run_all-ok [] s = refl
  run_all-ok (m ∷ ms) s = run_all-ok ms (m s).1

  -- Emitting an event never raises, whatever its handlers do: the caller goes on to its commit.
  pub emit_event_async-ok :
      {H P : Type 0} (run : H → P → Action S ⊤) (bus : Bus H) (name : String) (payload : P) (s : S)
      → (emit_event_async run bus name payload s).0 ≡ ok tt
  unfolding emit_event_async
  emit_event_async-ok {H} run bus name payload s =
      let calls = λ (hs : List H). map (λ h. run h payload) hs in
      ground (
        arith,
        run_all-ok (calls (handlers_of name bus.async_subscribers)) s,
        run_all-ok (calls (handlers_of name bus.subscribers))
            (run_all (calls (handlers_of name bus.async_subscribers)) s).1,
      )
