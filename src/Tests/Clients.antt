-- ===== src/Tests/Clients.antt =====
-- The theorems about the web client, at a small store, network and clock.
use corner_tasks.Prelude.{
  ℕ, ◌+◌, ◌≡◌, ◌⊎◌, refl, sym, ap, true, none, some, List, [], ◌∷◌, inl, inr, In,
}
use corner_tasks.Prelude.Text.{text_lt, trim, Text, codes, text_eq}
use corner_tasks.Prelude.Int.{pos, ltb_ℤ}
use corner_tasks.Prelude.Outcome.{returned}
use corner_tasks.Prelude.Json.{null}
use corner_tasks.Prelude.Latest.{latest}
use corner_tasks.Core.Types.{Op, SyncEvent}
use corner_tasks.Web.Tasks.{
  BuiltSyncEvent, get_task, normalise_stored, StoredTask, TaskItem, TaskStore, QueueRow, Drawn,
  raw_of, get_stored, active_tasks, from_stored,
}
use corner_tasks.Web.Tasks.Queue.{has_row, to_pending, pending_queue_rows}
use corner_tasks.Web.Tasks.Pending.{queue_row, edit_is_queued}
use corner_tasks.Web.Tasks.Mutations.{next_order, add}
use corner_tasks.Web.Tasks.Lww.{
  RemoteEvent, apply_remote, apply_all, seen, view_of, version, version_lt, seen-apply_remote,
}
use corner_tasks.Web.Tasks.Convergence.{HaveDistinctVersions, devices_converge}
use corner_tasks.Web.Tasks.Edits.{
  Edit, retitled, run_edit, edited, get_stored-run_edit, edit_survives, add_is_last,
}
use corner_tasks.Web.Wire.{Runtime}
use corner_tasks.Web.Session.{ok, PushResponse, World, Identity, invalidated}
use corner_tasks.Web.Sync.{Engine, untried}
use corner_tasks.Web.Sync.Push.{answered, flush_pushes}
use corner_tasks.Web.Sync.Flush.{Archived, flush_pushes_keeps}
use corner_tasks.Tests.Fixtures.{alice, milk, key}

abbrev empty_store : TaskStore
empty_store = record { tasks = []; queue = []; last_event_id_by_task = []; event_builder = none }

abbrev bought : RemoteEvent
bought = RemoteEvent.upsert (record {
  task_id = milk;
  title = codes "Milk";
  created_at = 1;
  completed_at = none;
  due_date = none;
  order = pos 0;
  updated_at = 5;
  event_id = codes "e1";
})

abbrev dropped : RemoteEvent
dropped = RemoteEvent.delete (record { task_id = milk; updated_at = 7; event_id = codes "e2" })

abbrev in_order : List RemoteEvent
in_order = bought ∷ dropped ∷ []

abbrev disordered : List RemoteEvent
disordered = dropped ∷ bought ∷ []

in_order-disordered : (ev : RemoteEvent) → In ev in_order → In ev disordered
in_order-disordered ev (inl e) = inr (inl e)
in_order-disordered ev (inr (inl e)) = inl e
in_order-disordered ev (inr (inr m)) = absurd m

disordered-in_order : (ev : RemoteEvent) → In ev disordered → In ev in_order
disordered-in_order ev (inl e) = inr (inl e)
disordered-in_order ev (inr (inl e)) = inl e
disordered-in_order ev (inr (inr m)) = absurd m

versions_differ : ¬ (version (view_of bought) ≡ version (view_of dropped))
versions_differ e = cc (ap (λ v. v.0) e)

in_order-HaveDistinctVersions : HaveDistinctVersions in_order
in_order-HaveDistinctVersions x y (inl e) (inl f) t s = rw (e, f) refl
in_order-HaveDistinctVersions x y (inl e) (inr (inl f)) t s =
    absurd (versions_differ (rw (e, f) at s))
in_order-HaveDistinctVersions x y (inr (inl e)) (inl f) t s =
    absurd (versions_differ (sym (rw (e, f) at s)))
in_order-HaveDistinctVersions x y (inr (inl e)) (inr (inl f)) t s = rw (e, f) refl
in_order-HaveDistinctVersions x y (inl e) (inr (inr f)) t s = absurd f
in_order-HaveDistinctVersions x y (inr (inl e)) (inr (inr f)) t s = absurd f
in_order-HaveDistinctVersions x y (inr (inr e)) m t s = absurd e

seen-apply_remote_example :
    seen milk (apply_remote dropped (apply_remote bought empty_store))
    ≡ latest version_lt version (seen milk (apply_remote bought empty_store)) (view_of dropped)
unfolding get_stored text_eq
seen-apply_remote_example = seen-apply_remote milk dropped (apply_remote bought empty_store) refl

devices_converge_example :
    seen milk (apply_all in_order empty_store) ≡ seen milk (apply_all disordered empty_store)
unfolding get_stored normalise_stored get_task
devices_converge_example =
    devices_converge milk in_order disordered empty_store empty_store refl refl (refl, (refl, tt))
      (refl, (refl, tt)) in_order-disordered disordered-in_order in_order-HaveDistinctVersions

abbrev milk_row : StoredTask
milk_row = record {
  id = milk;
  title = codes "Milk";
  created_at = 1;
  completed_at = none;
  due_date = none;
  order = pos 3;
  updated_at = 5;
  deleted_at = none;
}

abbrev waiting : QueueRow
waiting = record {
  event_id = codes "e1";
  task_id = milk;
  op = Op.upsert;
  payload_json = codes "p";
  created_at = 5;
  sent_at = none;
}

abbrev one_task : TaskStore
one_task = record {
  tasks = raw_of milk_row ∷ [];
  queue = waiting ∷ [];
  last_event_id_by_task = [];
  event_builder = none;
}

abbrev drawn : Drawn
drawn = record { event_id = codes "e9"; iv = [] }

abbrev oats : Edit
oats = retitled (codes "Oats")

get_stored-run_edit_example :
    get_stored milk (run_edit 9 drawn milk oats one_task).1
    ≡ some (record (edited oats milk_row) { updated_at = 9 })
unfolding get_stored normalise_stored get_task text_eq trim
get_stored-run_edit_example = get_stored-run_edit 9 drawn milk oats milk_row one_task refl refl

edit_survives_example :
    apply_remote dropped (run_edit 9 drawn milk oats one_task).1
    ≡ (run_edit 9 drawn milk oats one_task).1
unfolding get_stored normalise_stored get_task text_eq trim
edit_survives_example = edit_survives 9 drawn oats milk_row dropped one_task refl refl refl

abbrev building : TaskStore
building = record one_task {
  event_builder =
      some (λ d snap. some (record { event_id = d.event_id; payload_json = snap.title }));
}

abbrev oats_event : BuiltSyncEvent
oats_event = record { event_id = codes "e9"; payload_json = codes "Oats" }

edit_is_queued_example :
    In
      (to_pending (queue_row milk Op.upsert 9 oats_event))
      (pending_queue_rows (run_edit 9 drawn milk oats building).1)
unfolding get_stored normalise_stored get_task text_eq trim has_row
edit_is_queued_example =
    edit_is_queued 9 drawn milk oats milk_row
      (λ d snap. some (record { event_id = d.event_id; payload_json = snap.title })) oats_event
      building refl refl refl refl refl

abbrev second_item : TaskItem
second_item = record {
  id = codes "oats";
  title = codes "Oats";
  created_at = 9;
  completed_at = none;
  due_date = none;
  order = pos 4;
}

add_is_last_example : ltb_ℤ (from_stored milk_row).order second_item.order ≡ true
unfolding add trim text_eq normalise_stored text_lt next_order active_tasks
add_is_last_example =
    add_is_last 9 9 (codes "oats") (codes " Oats ") drawn one_task second_item
      (from_stored milk_row) refl (inl refl)

abbrev runtime : Runtime
runtime = record {
  btoa = λ b. b;
  atob = λ t. returned t;
  utf8_encode = λ t. t;
  utf8_decode = λ b. b;
  json_string = λ t. t;
  json_parse = λ _. returned null;
  event_stringify = λ ev. ev.event_id;
  event_parse = λ t. some (record {
    account_did = alice;
    device_id = [];
    event_id = t;
    task_id = milk;
    updated_at = [];
    op = Op.delete;
    ciphertext = [];
    nonce = [];
  });
  to_iso = λ _. [];
  date_parse = λ _. some 8;
  aes_encrypt = λ _ _ _ p. returned p;
  aes_decrypt = λ _ _ _ c. returned c;
  ed_sign = λ _ _. [];
}

-- The state of the network is the time. A push accepts e1; a pull answers with nothing, and the cursor 4.
abbrev world : World ℕ
world = record {
  now = λ n. (n, n + 1);
  commits = λ n. (true, n);
  challenge = λ _ n. (ok (record { challenge = []; audience = []; expires_at = [] }), n);
  token = λ _ _ n. (ok (record { access_token = codes "t"; expires_at = [] }), n);
  push = λ _ _ _ n. (ok (record { accepted = codes "e1" ∷ []; rejected = [] }), n);
  pull = λ _ _ _ n. (ok (record { events = []; next_cursor = codes "4" }), n);
}

abbrev identity : Identity
identity = record { account_did = alice; method_specific_id = codes "zA"; private_key = key }

abbrev engine : Engine ℕ
engine = record {
  store = one_task;
  cursor = none;
  session = invalidated;
  last_push_outcome = untried;
  last_pull_outcome = untried;
  net = 10;
}

abbrev IsFirst : Text → Type 0
IsFirst id = id ≡ codes "e1"

only-IsFirst :
    (response : PushResponse) (id : Text)
    → ok (record { accepted = codes "e1" ∷ []; rejected = [] }) ≡ ok response
    → In id (answered response)
    → IsFirst id
only-IsFirst response id e m =
    let same : record { accepted = codes "e1" ∷ []; rejected = [] } ≡ response = cc e in
    elim (rw (← same) at m) [ inl h ↦ h | inr h ↦ absurd h ]

flush_pushes_keeps_example :
    In waiting (flush_pushes world runtime identity engine).store.queue
    ⊎ IsFirst waiting.event_id
    ⊎ Archived 10 one_task waiting.event_id
flush_pushes_keeps_example =
    flush_pushes_keeps world runtime identity IsFirst
      (λ events token n response id. only-IsFirst response id) engine waiting (inl refl)

-- A pull that answers with one deletion.
abbrev gone : SyncEvent
gone = record {
  account_did = alice;
  device_id = [];
  event_id = codes "e9";
  task_id = milk;
  updated_at = [];
  op = Op.delete;
  ciphertext = [];
  nonce = [];
}

abbrev pulling : World ℕ
pulling = record world {
  pull = λ _ _ _ n. (ok (record { events = gone ∷ []; next_cursor = codes "4" }), n);
}
