-- ===== src/Filesystem/DirWatcher/Stopping.antt =====
-- The callbacks of a directory watcher (filesystem/DirWatcher.cpp) around stop().
use phud.Prelude.{
  ◌≡◌, refl, sym, ap, ◌∙◌, Bool, true, false, List, [], ◌∷◌, ◌++◌, append-nil, arith,
}
use phud.Filesystem.DirWatcher.{
  Call, Handler, idle, arrived, locked, passed, in_callback, holds_mutex, away, State, initial,
  HandlerStep, returns_early, arrives, lock, pass, skip_stopped, skip_empty, call, return,
  CallerStep, starts, stop_at_once, stop_begins, stop_ends, Step, handles, calls_in, Reach, here,
  next,
}

-- Steps during which the flag stays set, so that no start() succeeds.
pub data Quiet (s : State) : State → Type 0 where
  now : Quiet s s
  later : {t u : State} → Quiet s t → Step t u → u.watcher.stopped ≡ true → Quiet s u

-- The call that has passed its test and is not made yet.
abbrev pub pending : Handler → List Call
pending idle = []
pending (arrived path) = []
pending (locked path) = []
pending (passed f path) = (f, path) ∷ []
pending in_callback = []

-- A callback is running, or it is about to.
abbrev pub is_calling : Handler → Bool
is_calling idle = false
is_calling (arrived path) = false
is_calling (locked path) = false
is_calling (passed f path) = true
is_calling in_callback = true

-- The calls made and the one that is due.
abbrev due : State → List Call
due s = s.calls ++ pending s.handler

calling-holds : (h : Handler) → holds_mutex h ≡ false → is_calling h ≡ false
calling-holds idle e = refl
calling-holds (arrived path) e = refl
calling-holds (locked path) e = refl
calling-holds (passed f path) e = cc
calling-holds in_callback e = cc

none_due : (s : State) (h : Handler) → s.handler ≡ h → pending h ≡ [] → due s ≡ s.calls
none_due s h e n = ap (λ (l : List Call). s.calls ++ l) (ap pending e ∙ n) ∙ append-nil s.calls

-- While the flag is set no call becomes due.
HandlerStep-due : {s t : State} → HandlerStep s t → s.watcher.stopped ≡ true → due t ≡ due s
HandlerStep-due (returns_early s filename action e p) h = refl
HandlerStep-due (arrives s dir filename action e p) h =
    append-nil s.calls ∙ sym (none_due s idle e refl)
HandlerStep-due (lock s path e) h = append-nil s.calls ∙ sym (none_due s (arrived path) e refl)
HandlerStep-due (pass s path f e p c) h = cc
HandlerStep-due (skip_stopped s path e p) h =
    append-nil s.calls ∙ sym (none_due s (locked path) e refl)
HandlerStep-due (skip_empty s path e p c) h = cc
HandlerStep-due (call s f path e) h =
    append-nil (s.calls ++ ((f, path) ∷ []))
    ∙ ap (λ (l : List Call). s.calls ++ l) (sym (ap pending e))
HandlerStep-due (return s e) h = append-nil s.calls ∙ sym (none_due s in_callback e refl)

CallerStep-due : {s t : State} → CallerStep s t → due t ≡ due s
CallerStep-due (starts s observer watch e m) = refl
CallerStep-due (stop_at_once s e p) = refl
CallerStep-due (stop_begins s e p) = refl
CallerStep-due (stop_ends s e m) = refl

Step-due : {s t : State} → Step s t → s.watcher.stopped ≡ true → due t ≡ due s
Step-due (handles w) h = HandlerStep-due w h
Step-due (calls_in c) h = CallerStep-due c

Quiet-due :
    {s t : State}
    → s.watcher.stopped ≡ true
    → Quiet s t
    → (due t ≡ due s) × (t.watcher.stopped ≡ true)
Quiet-due h now = (refl, h)
Quiet-due h (later q st f) = let (e, k) = Quiet-due h q in (Step-due st k ∙ e, f)

-- From a state on in which the flag of stop() is set, and as long as it stays set, the only
-- callback that is called is the one that has passed its test of the flag before, if there is one,
-- and it is called once at most, whatever the two threads do.
pub calls_after_flag :
    (s t : State)
    → s.watcher.stopped ≡ true
    → Quiet s t
    → t.calls ++ pending t.handler ≡ s.calls ++ pending s.handler
calls_after_flag s t h q = (Quiet-due h q).0

-- Where no stop() is under way and the flag is set, no callback runs.
abbrev Inv : State → Type 0
Inv s = s.caller ≡ away → s.watcher.stopped ≡ true → is_calling s.handler ≡ false

HandlerStep-Inv : {s t : State} → HandlerStep s t → Inv s → Inv t
HandlerStep-Inv (returns_early s filename action e p) v = v
HandlerStep-Inv (arrives s dir filename action e p) v = λ a b. refl
HandlerStep-Inv (lock s path e) v = λ a b. refl
HandlerStep-Inv (pass s path f e p c) v = λ a b. cc
HandlerStep-Inv (skip_stopped s path e p) v = λ a b. refl
HandlerStep-Inv (skip_empty s path e p c) v = λ a b. refl
HandlerStep-Inv (call s f path e) v = λ a b. absurd (ground (arith, v a b, ap is_calling e))
HandlerStep-Inv (return s e) v = λ a b. refl

CallerStep-Inv : {s t : State} → CallerStep s t → Inv s → Inv t
CallerStep-Inv (starts s observer watch e m) v = λ a b. calling-holds s.handler m
CallerStep-Inv (stop_at_once s e p) v = v
CallerStep-Inv (stop_begins s e p) v = λ a b. cc
CallerStep-Inv (stop_ends s e m) v = λ a b. calling-holds s.handler m

Reach-Inv : {s t : State} → Inv s → Reach s t → Inv t
Reach-Inv v here = v
Reach-Inv v (next r (handles w)) = HandlerStep-Inv w (Reach-Inv v r)
Reach-Inv v (next r (calls_in c)) = CallerStep-Inv c (Reach-Inv v r)

-- Where no callback runs while the flag is set, none begins.
HandlerStep-quiet :
    {s t : State}
    → HandlerStep s t
    → s.watcher.stopped ≡ true
    → is_calling s.handler ≡ false
    → (t.calls ≡ s.calls) × (is_calling t.handler ≡ false)
HandlerStep-quiet (returns_early s filename action e p) h c = (refl, c)
HandlerStep-quiet (arrives s dir filename action e p) h c = (refl, refl)
HandlerStep-quiet (lock s path e) h c = (refl, refl)
HandlerStep-quiet (pass s path f e p k) h c = cc
HandlerStep-quiet (skip_stopped s path e p) h c = (refl, refl)
HandlerStep-quiet (skip_empty s path e p k) h c = (refl, refl)
HandlerStep-quiet (call s f path e) h c = absurd (ground (arith, c, ap is_calling e))
HandlerStep-quiet (return s e) h c = (refl, refl)

CallerStep-quiet : {s t : State} → CallerStep s t → (t.calls ≡ s.calls) × (t.handler ≡ s.handler)
CallerStep-quiet (starts s observer watch e m) = (refl, refl)
CallerStep-quiet (stop_at_once s e p) = (refl, refl)
CallerStep-quiet (stop_begins s e p) = (refl, refl)
CallerStep-quiet (stop_ends s e m) = (refl, refl)

Step-quiet :
    {s t : State}
    → Step s t
    → s.watcher.stopped ≡ true
    → is_calling s.handler ≡ false
    → (t.calls ≡ s.calls) × (is_calling t.handler ≡ false)
Step-quiet (handles w) h c = HandlerStep-quiet w h c
Step-quiet (calls_in k) h c = let (e, f) = CallerStep-quiet k in (e, ap is_calling f ∙ c)

no_call-Quiet :
    {s t : State}
    → s.watcher.stopped ≡ true
    → is_calling s.handler ≡ false
    → Quiet s t
    → (t.calls ≡ s.calls) × (is_calling t.handler ≡ false)
no_call-Quiet h c now = (refl, c)
no_call-Quiet h c (later q st f) =
    let (e, d) = no_call-Quiet h c q in
    let (e', d') = Step-quiet st (Quiet-due h q).1 d in (e' ∙ e, d')

-- In every state that a new watcher can reach, where the flag of stop() is set and no stop() is
-- under way, no callback runs, and as long as the flag stays set none is called or begins to run,
-- whatever the two threads do.
pub no_call_after_stop :
    (s t : State)
    → Reach initial s
    → s.caller ≡ away
    → s.watcher.stopped ≡ true
    → Quiet s t
    → (t.calls ≡ s.calls) × (is_calling t.handler ≡ false)
no_call_after_stop s t r a h q =
    let v = Reach-Inv {s = initial} (λ b c. unfold initial in refl) r in no_call-Quiet h (v a h) q
