-- ===== src/Client/Threads/Trace.antt =====
-- What each thread of TCPS/Client/TCPSC.cpp has done in a run, and what all have done.
use mathlib.Core.List.{perm_middle}
use mathlib.Core.List.Perm
use eng_project.Base.{
  Bool, true, false, List, [], ◌∷◌, ◌++◌, append-nil, append_assoc, Perm, if◌then◌else◌,
}
use eng_project.Client.Event.{Event}
use eng_project.Client.Threads.{Who, by_capture, by_playback, by_main}

abbrev pub same : Who → Who → Bool
same by_capture by_capture = true
same by_playback by_playback = true
same by_main by_main = true
same _ _ = false

-- What one of them has done, in order.
unfoldable pub done_by : Who → List (Who × List Event) → List Event
done_by who [] = []
done_by who ((w, es) ∷ trace) =
    let before = done_by who trace in if same who w then before ++ es else before

-- What all of them have done, in order.
unfoldable pub done : List (Who × List Event) → List Event
done [] = []
done ((w, es) ∷ trace) = done trace ++ es

perm_comm : (xs ys : List Event) → Perm (xs ++ ys) (ys ++ xs)
perm_comm [] ys = rw (append-nil ys) Perm.rfl
perm_comm (x ∷ xs) ys = Perm.trans (Perm.cons x (perm_comm xs ys)) (Perm.symm (perm_middle ys xs))

perm_between :
    (es before after : List Event) {all : List Event}
    → Perm all (before ++ after)
    → Perm (all ++ es) (before ++ es ++ after)
perm_between es before after p = Perm.trans (Perm.append_right es p) (
    rw (append_assoc before after es, append_assoc before es after)
      (Perm.append_left before (perm_comm after es)))

-- What all have done is what each has done, in another order.
pub done-perm :
    (trace : List (Who × List Event))
    → Perm
        (done trace)
        (done_by by_main trace ++ (done_by by_capture trace ++ done_by by_playback trace))
unfolding done done_by
done-perm [] = Perm.rfl
done-perm ((by_playback, es) ∷ trace) =
    let m = done_by by_main trace in
    let c = done_by by_capture trace in
    let p = done_by by_playback trace in
    rw (← append_assoc c p es, ← append_assoc m (c ++ p) es)
      (Perm.append_right es (done-perm trace))
done-perm ((by_capture, es) ∷ trace) =
    let m = done_by by_main trace in
    let c = done_by by_capture trace in
    let p = done_by by_playback trace in
    rw (← append_assoc m (c ++ es) p, ← append_assoc m c es)
      (perm_between es (m ++ c) p (rw (append_assoc m c p) (done-perm trace)))
done-perm ((by_main, es) ∷ trace) =
    perm_between es (done_by by_main trace) (done_by by_capture trace ++ done_by by_playback trace)
      (done-perm trace)

-- First what `main` does, and then the threads.
pub main_last-perm :
    (e : Event) (after c p : List Event) → Perm (e ∷ after ++ (c ++ p)) (e ∷ c ++ (p ++ after))
main_last-perm e after c p = Perm.cons e (rw (← append_assoc c p after) (perm_comm after (c ++ p)))
