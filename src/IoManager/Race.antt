-- ===== src/IoManager/Race.antt =====
-- kit_server/iomanager.cpp: two calls of addEvent that both find the vector too short.
use kit_server.Common.{
  ℕ, ◌*◌, ◌/◌, ◌≤◌, ◌<◌, ◌≡◌, refl, ap, ◌∙◌, arith, lt→ltb, not_lt→ltb, ◌∷◌, length, none, some,
  Bool, true, false,
}
use kit_server.IoManager.{
  Event, read, write, has, with, any, IoManager, FdContext, fresh, no_events, context_at,
  context_resize, put_event_context, get_event_context, update, increment, add, add_to, add_looked,
  found_context, put_bound, bind, is_blank, is_none,
}
use kit_server.IoManager.Contexts.{
  context_at-put_context, context_at-put_context_other, length-put_context,
  context_at-context_resize_inside, context_at-short, length-context_resize,
}
use kit_server.IoManager.Steps.{IsValid}

-- A context with one event and its callback, and the manager that addEvent leaves with it.
abbrev one_event : Event → ℕ → FdContext
one_event ev f =
    put_event_context ev (record { scheduler = true; coroutine = none; cb = some f })
      (record fresh { events = with ev no_events })

abbrev registered : ℕ → Event → ℕ → IoManager → IoManager
registered fd ev f m =
    update fd (one_event ev f)
      (record m { pending = increment m.pending; log = add fd (with ev no_events) ∷ m.log })

add_to-fresh :
    (running : Bool) (current fd : ℕ) (ev : Event) (f : ℕ) (m : IoManager)
    → context_at fd m.contexts ≡ fresh
    → add_to true true running current fd ev (some f) m ≡ some (registered fd ev f m, true)
unfolding add_to put_bound bind is_blank is_none any has get_event_context
add_to-fresh running current fd read f m e = rw e refl
add_to-fresh running current fd write f m e = rw e refl

-- The second part of addEvent for a place that has no events, behind the read lock of a shorter vector.
add_looked-fresh :
    (running : Bool) (current fd : ℕ) (ev : Event) (f : ℕ) (m : IoManager)
    → fd < fd * 3 / 2
    → context_at fd m.contexts ≡ fresh
    → let larger = record m { contexts = context_resize (fd * 3 / 2) m.contexts } in
      add_looked false true true running current fd ev (some f) m
      ≡ some (registered fd ev f larger, true)
unfolding add_looked
add_looked-fresh running current fd ev f m h e =
    let inside =
      lt→ltb fd (length (context_resize (fd * 3 / 2) m.contexts))
        (omega (arith, length-context_resize (fd * 3 / 2) m.contexts, h)) in
    rw inside (
      add_to-fresh running current fd ev f _
        (context_at-context_resize_inside fd (fd * 3 / 2) m.contexts h ∙ e))

one_event-has : (ev : Event) (f : ℕ) → has ev (one_event ev f).events ≡ true
unfolding has with put_event_context
one_event-has read f = refl
one_event-has write f = refl

-- In a valid manager, let two threads call addEvent with callbacks for descriptors behind the end
-- of the vector, and both look at it before one writes; half as much again as the second
-- descriptor is at most the first. Then both calls succeed, the event of the first is registered
-- after its call, but after the second one the vector is too short for it: its context is gone,
-- while the pending count has both events.
add_event_race :
    (running : Bool) (current fd other : ℕ) (ev also : Event) (f g : ℕ) (m : IoManager)
    → IsValid m
    → length m.contexts ≤ other
    → other * 3 / 2 ≤ fd
    → (found_context fd m ≡ false)
      × (found_context other m ≡ false)
      × ((m' : IoManager) × (m'' : IoManager) × (add_looked false true true running current fd ev
              (some f)
              m
            ≡ some (m', true))
          × (has ev (context_at fd m'.contexts).events ≡ true)
          × (add_looked false true true running current other also (some g) m' ≡ some (m'', true))
          × (length m''.contexts ≤ fd)
          × (context_at fd m''.contexts ≡ fresh)
          × (m''.pending ≡ increment (increment m.pending)))
add_event_race running current fd other ev also f g m v behind larger =
    let enough : 2 ≤ length m.contexts = omega (arith, v.sound.enough) in
    let size = length-context_resize (fd * 3 / 2) m.contexts in
    let m_1 = record m { contexts = context_resize (fd * 3 / 2) m.contexts } in
    let m' = registered fd ev f m_1 in
    let kept = context_at-put_context fd (one_event ev f) m_1.contexts (omega (arith, size)) in
    let unused : context_at other m'.contexts ≡ fresh =
      context_at-put_context_other fd other (one_event ev f) m_1.contexts (λ e. omega (arith, e))
      ∙ context_at-context_resize_inside other (fd * 3 / 2) m.contexts (omega arith)
      ∙ context_at-short other m.contexts behind in
    let m_2 = record m' { contexts = context_resize (other * 3 / 2) m'.contexts } in
    let m'' = registered other also g m_2 in
    let short : length m''.contexts ≤ fd = omega (
      arith,
      length-put_context other (one_event also g) m_2.contexts,
      length-context_resize (other * 3 / 2) m'.contexts,
    ) in
    (
      not_lt→ltb fd (length m.contexts) (omega arith),
      not_lt→ltb other (length m.contexts) behind,
      (
        m',
        m'',
        add_looked-fresh running current fd ev f m (omega arith)
            (context_at-short fd m.contexts (omega arith)),
        ap (λ c. has ev c.events) kept ∙ one_event-has ev f,
        add_looked-fresh running current other also g m' (omega arith) unused,
        short,
        context_at-short fd m''.contexts short,
        refl,
      ),
    )
