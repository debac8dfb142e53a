-- ===== src/Web/Tasks/Convergence.antt =====
-- Devices that saw the same events show the same tasks: apps/web/src/storage/TaskStore.ts.
use corner_tasks.Prelude.{
  ◌≡◌, refl, sym, ap, ◌∙◌, Bool, false, none, List, [], ◌∷◌, map, inl, inr, is_empty, filter, In,
  All, In-filter, filter-In, In-map, map-In, Bool-cases,
}
use corner_tasks.Prelude.Text.{Text, text_eq, text_eq_iff}
use corner_tasks.Prelude.Latest.{latest_of, latest_of_unique}
use corner_tasks.Web.Tasks.{TaskStore}
use corner_tasks.Web.Tasks.Lww.{
  RemoteEvent, apply_remote, apply_all, View, seen, task_of, id_of, view_of, version, version_lt,
  version_lt-IsStrict, seen-apply_remote,
}

abbrev pub is_for : Text → RemoteEvent → Bool
is_for t ev = text_eq (task_of ev) t

-- What the events say of one task.
unfoldable pub history : Text → List RemoteEvent → List View
unfolding filter
history t evs = map view_of (filter (is_for t) evs)

abbrev pub HaveIds : List RemoteEvent → Type 0
HaveIds = All (λ ev. is_empty (id_of ev) ≡ false)

-- What a device has seen of a task after any remote events, which all have an event id, is the
-- latest of what it had seen and of the events for that task.
pub seen-apply_all :
    (t : Text) (evs : List RemoteEvent) (s : TaskStore)
    → HaveIds evs
    → seen t (apply_all evs s) ≡ latest_of version_lt version (seen t s) (history t evs)
unfolding history
seen-apply_all t [] s h = refl
seen-apply_all t (ev ∷ evs) s h = elim (Bool-cases (is_for t ev)) [
  | inl e ↦ seen-apply_all t evs (apply_remote ev s) h.1 ∙ rw (seen-apply_remote t ev s h.0, e)
  | inr e ↦ seen-apply_all t evs (apply_remote ev s) h.1 ∙ rw (seen-apply_remote t ev s h.0, e)
]

-- No two different events of one task carry the same updatedAt and eventId.
abbrev pub HaveDistinctVersions : List RemoteEvent → Type 0
HaveDistinctVersions evs =
    (x y : RemoteEvent)
    → In x evs
    → In y evs
    → task_of x ≡ task_of y
    → version (view_of x) ≡ version (view_of y)
    → view_of x ≡ view_of y

history_sub :
    (t : Text) (evs fvs : List RemoteEvent)
    → ((ev : RemoteEvent) → In ev evs → In ev fvs)
    → (x : View) → In x (history t evs)
    → In x (history t fvs)
unfolding history
history_sub t evs fvs f x m =
    let (ev, at, same) = In-map view_of x (filter (is_for t) evs) m in
    let (at', h) = In-filter (is_for t) ev evs at in
    rw same (map-In view_of ev (filter (is_for t) fvs) (filter-In (is_for t) ev fvs (f ev at') h))

history_distinct :
    (t : Text) (evs : List RemoteEvent)
    → HaveDistinctVersions evs
    → (x y : View) → In x (history t evs)
    → In y (history t evs)
    → version x ≡ version y
    → x ≡ y
unfolding history
history_distinct t evs d x y mx my e =
    let (u, in_u, p) = In-map view_of x (filter (is_for t) evs) mx in
    let (v, in_v, q) = In-map view_of y (filter (is_for t) evs) my in
    let (at_u, h) = In-filter (is_for t) u evs in_u in
    let (at_v, k) = In-filter (is_for t) v evs in_v in
    let same = (text_eq_iff (task_of u) t).0 h ∙ sym ((text_eq_iff (task_of v) t).0 k) in
    p ∙ d u v at_u at_v same (sym (ap version p) ∙ e ∙ ap version q) ∙ sym q

-- Two devices that had seen nothing of a task and apply the same remote events, each in its own
-- order and with its own repetitions, come to show the same version of it, and the same task or
-- none, if the events have ids and no two different events of a task have the same version.
pub devices_converge :
    (t : Text) (evs fvs : List RemoteEvent) (s s' : TaskStore)
    → seen t s ≡ none
    → seen t s' ≡ none
    → HaveIds evs
    → HaveIds fvs
    → ((ev : RemoteEvent) → In ev evs → In ev fvs)
    → ((ev : RemoteEvent) → In ev fvs → In ev evs)
    → HaveDistinctVersions evs
    → seen t (apply_all evs s) ≡ seen t (apply_all fvs s')
devices_converge t evs fvs s s' fresh fresh' ids ids' f g d =
    seen-apply_all t evs s ids
    ∙ ap (λ o. latest_of version_lt version o (history t evs)) fresh
    ∙ latest_of_unique version_lt version version_lt-IsStrict (history t evs) (history t fvs)
        (history_sub t evs fvs f) (history_sub t fvs evs g) (history_distinct t evs d)
    ∙ sym (ap (λ o. latest_of version_lt version o (history t fvs)) fresh')
    ∙ sym (seen-apply_all t fvs s' ids')
