-- ===== src/IoManager/Contexts.antt =====
-- kit_server/iomanager.cpp: the vector of contexts, and what a context holds for each of its events.
use kit_server.Common.{
  ℕ, zero, suc, ◌+◌, ◌-◌, ◌≤◌, ◌<◌, ◌≡◌, ◌≢◌, refl, ap, ◌∙◌, subst, arith, List, [], ◌∷◌, ◌++◌,
  length, replicate, length-append, length-take, take_all, take, length-replicate, All, All-append,
  none, some, Bool, true, false, not, ◌&&◌,
}
use mathlib.Core.Bool.{true≢false}
use kit_server.Scheduler.{Task, Work, schedule, has_work}
use kit_server.IoManager.{
  Event, read, write, Events, has, without, EventContext, FdContext, blank_event, fresh, context_at,
  put_context, context_resize, get_event_context, put_event_context, is_none, task_of, emptied,
  scheduled, trigger_event,
}

-- The context of an event that is registered has a scheduler, and a callback or a coroutine; that of
-- another event is blank.
pub data SideOk (registered : Bool) (e : EventContext) : Type 0 where
  off : registered ≡ false → e ≡ blank_event → SideOk registered e
  by_cb :
      (f : ℕ)
      → registered ≡ true
      → e ≡ record { scheduler = true; coroutine = none; cb = some f }
      → SideOk registered e
  by_coroutine :
      (c : ℕ)
      → registered ≡ true
      → e ≡ record { scheduler = true; coroutine = some c; cb = none }
      → SideOk registered e

abbrev pub ContextOk : FdContext → Type 0
ContextOk c = SideOk c.events.reads c.read_event × SideOk c.events.writes c.write_event

abbrev pub bit : Bool → ℕ
bit true = 1
bit false = 0

-- The number of registered events.
abbrev pub count : Events → ℕ
count s = bit s.reads + bit s.writes

unfoldable pub total : List FdContext → ℕ
total [] = 0
total (c ∷ cs) = count c.events + total cs

pub fresh-ContextOk : ContextOk fresh
fresh-ContextOk = (off refl refl, off refl refl)

pub context_at-put_context :
    (i : ℕ) (d : FdContext) (cs : List FdContext)
    → i < length cs
    → context_at i (put_context i d cs) ≡ d
unfolding context_at put_context
context_at-put_context i d [] h = absurd (omega arith)
context_at-put_context zero d (c ∷ cs) h = refl
context_at-put_context (suc i) d (c ∷ cs) h = context_at-put_context i d cs (omega arith)

pub context_at-put_context_other :
    (i j : ℕ) (d : FdContext) (cs : List FdContext)
    → j ≢ i
    → context_at j (put_context i d cs) ≡ context_at j cs
unfolding context_at put_context
context_at-put_context_other i j d [] n = refl
context_at-put_context_other zero zero d (c ∷ cs) n = absurd (n refl)
context_at-put_context_other zero (suc j) d (c ∷ cs) n = refl
context_at-put_context_other (suc i) zero d (c ∷ cs) n = refl
context_at-put_context_other (suc i) (suc j) d (c ∷ cs) n =
    context_at-put_context_other i j d cs (λ e. n (ap suc e))

pub length-put_context :
    (i : ℕ) (d : FdContext) (cs : List FdContext) → length (put_context i d cs) ≡ length cs
unfolding put_context
length-put_context i d [] = refl
length-put_context zero d (c ∷ cs) = refl
length-put_context (suc i) d (c ∷ cs) = ap suc (length-put_context i d cs)

pub total-put_context :
    (i : ℕ) (d : FdContext) (cs : List FdContext)
    → i < length cs
    → total (put_context i d cs) + count (context_at i cs).events ≡ total cs + count d.events
unfolding context_at put_context total
total-put_context i d [] h = absurd (omega arith)
total-put_context zero d (c ∷ cs) h = omega arith
total-put_context (suc i) d (c ∷ cs) h = omega (arith, total-put_context i d cs (omega arith))

pub put_context-All :
    (i : ℕ) (d : FdContext) (cs : List FdContext)
    → ContextOk d
    → All ContextOk cs
    → All ContextOk (put_context i d cs)
unfolding put_context
put_context-All i d [] ok h = tt
put_context-All zero d (c ∷ cs) ok h = (ok, h.1)
put_context-All (suc i) d (c ∷ cs) ok h = (h.0, put_context-All i d cs ok h.1)

pub context_at-ContextOk :
    (i : ℕ) (cs : List FdContext) → All ContextOk cs → ContextOk (context_at i cs)
unfolding context_at
context_at-ContextOk i [] h = fresh-ContextOk
context_at-ContextOk zero (c ∷ cs) h = h.0
context_at-ContextOk (suc i) (c ∷ cs) h = context_at-ContextOk i cs h.1

-- New contexts at the end change nothing.
context_at-append :
    (i n : ℕ) (cs : List FdContext) → context_at i (cs ++ replicate n fresh) ≡ context_at i cs
unfolding context_at
context_at-append i zero [] = refl
context_at-append zero (suc n) [] = refl
context_at-append (suc i) (suc n) [] = context_at-append i n []
context_at-append zero n (c ∷ cs) = refl
context_at-append (suc i) n (c ∷ cs) = context_at-append i n cs

total-append : (n : ℕ) (cs : List FdContext) → total (cs ++ replicate n fresh) ≡ total cs
unfolding total
total-append zero [] = refl
total-append (suc n) [] = omega (arith, total-append n [])
total-append n (c ∷ cs) = ap (λ t. count c.events + t) (total-append n cs)

fresh-All : (n : ℕ) → All ContextOk (replicate n fresh)
fresh-All zero = tt
fresh-All (suc n) = (fresh-ContextOk, fresh-All n)

-- A vector that does not get shorter keeps its contexts.
context_resize_longer :
    (n : ℕ) (cs : List FdContext)
    → length cs ≤ n
    → context_resize n cs ≡ cs ++ replicate (n - length cs) fresh
unfolding context_resize
context_resize_longer n cs h = rw (take_all n cs h) refl

pub context_at-context_resize :
    (i n : ℕ) (cs : List FdContext)
    → length cs ≤ n
    → context_at i (context_resize n cs) ≡ context_at i cs
context_at-context_resize i n cs h =
    rw (context_resize_longer n cs h) (context_at-append i (n - length cs) cs)

pub total-context_resize :
    (n : ℕ) (cs : List FdContext) → length cs ≤ n → total (context_resize n cs) ≡ total cs
total-context_resize n cs h = rw (context_resize_longer n cs h) (total-append (n - length cs) cs)

pub context_resize-All :
    (n : ℕ) (cs : List FdContext)
    → length cs ≤ n
    → All ContextOk cs
    → All ContextOk (context_resize n cs)
context_resize-All n cs h ok =
    rw (context_resize_longer n cs h) (All-append ContextOk cs _ ok (fresh-All (n - length cs)))

-- The vector has the size that it was given, also where it gets shorter.
pub length-context_resize : (n : ℕ) (cs : List FdContext) → length (context_resize n cs) ≡ n
unfolding context_resize
length-context_resize n cs =
    length-append (take n cs) (replicate (n - length cs) fresh)
    ∙ omega (arith, length-take n cs, length-replicate (n - length cs) fresh)

context_at-take :
    (i n : ℕ) (cs : List FdContext) → i < n → context_at i (take n cs) ≡ context_at i cs
unfolding context_at
context_at-take i zero cs h = absurd (omega arith)
context_at-take i (suc n) [] h = refl
context_at-take zero (suc n) (c ∷ cs) h = refl
context_at-take (suc i) (suc n) (c ∷ cs) h = context_at-take i n cs (omega arith)

-- A place inside the new size keeps its context.
pub context_at-context_resize_inside :
    (i n : ℕ) (cs : List FdContext) → i < n → context_at i (context_resize n cs) ≡ context_at i cs
unfolding context_resize
context_at-context_resize_inside i n cs h =
    context_at-append i (n - length cs) (take n cs) ∙ context_at-take i n cs h

-- Behind its end the vector has no events.
pub context_at-short : (i : ℕ) (cs : List FdContext) → length cs ≤ i → context_at i cs ≡ fresh
unfolding context_at
context_at-short i [] h = refl
context_at-short zero (c ∷ cs) h = absurd (omega arith)
context_at-short (suc i) (c ∷ cs) h = context_at-short i cs (omega arith)

-- What `triggerEvent` does with a registered event of a context that is as it should be.
pub record Triggered (ev : Event) (c : FdContext) (q : List Task) (r : FdContext × List Task)
    : Type 0 where
  pub events : r.0.events ≡ without ev c.events
  pub ok : ContextOk r.0
  pub fewer : count r.0.events + 1 ≡ count c.events
  pub queued :
      (w : Work) × (has_work w ≡ true) × (r.1 ≡ q ++ record { work = w; thread = none } ∷ [])

fewer_lem : (ev : Event) (s : Events) → has ev s ≡ true → count (without ev s) + 1 ≡ count s
unfolding has without
fewer_lem read s h = omega (arith, ap bit h)
fewer_lem write s h = omega (arith, ap bit h)

-- A registered event's context is not null in what `triggerEvent` asserts, and is blank after it.
side_lem :
    (e : EventContext) (q : List Task)
    → SideOk true e
    → ((not (is_none e.cb && is_none e.coroutine) && e.scheduler) ≡ true)
      × (emptied e.cb e.coroutine ≡ blank_event)
      × ((w : Work) × (has_work w ≡ true)
          × (scheduled e q ≡ q ++ record { work = w; thread = none } ∷ []))
unfolding is_none emptied task_of schedule has_work
side_lem e q (off r x) = absurd (true≢false r)
side_lem e q (by_cb f r x) = rw x (refl, refl, (Work.cb f, refl, refl))
side_lem e q (by_coroutine c r x) = rw x (refl, refl, (Work.cor c, refl, refl))

pub trigger_event_lem :
    (ev : Event) (c : FdContext) (q : List Task)
    → ContextOk c
    → has ev c.events ≡ true
    → (r : FdContext × List Task) × (trigger_event ev c q ≡ some r) × Triggered ev c q r
unfolding trigger_event has without get_event_context put_event_context
trigger_event_lem read c q ok h =
    let side = side_lem c.read_event q (subst (λ b. SideOk b c.read_event) h ok.0) in
    (
      (
        put_event_context read (emptied c.read_event.cb c.read_event.coroutine)
            (record c { events = without read c.events }),
        scheduled c.read_event q,
      ),
      rw (h, side.0) refl,
      record {
        events = refl;
        ok = (off refl side.1, ok.1);
        fewer = fewer_lem read c.events h;
        queued = side.2;
      },
    )
trigger_event_lem write c q ok h =
    let side = side_lem c.write_event q (subst (λ b. SideOk b c.write_event) h ok.1) in
    (
      (
        put_event_context write (emptied c.write_event.cb c.write_event.coroutine)
            (record c { events = without write c.events }),
        scheduled c.write_event q,
      ),
      rw (h, side.0) refl,
      record {
        events = refl;
        ok = (ok.0, off refl side.1);
        fewer = fewer_lem write c.events h;
        queued = side.2;
      },
    )

-- An event that is not registered fails the assertion of `triggerEvent`.
pub trigger_event-none :
    (ev : Event) (c : FdContext) (q : List Task)
    → has ev c.events ≡ false
    → trigger_event ev c q ≡ none
unfolding trigger_event
trigger_event-none ev c q h = rw h refl
