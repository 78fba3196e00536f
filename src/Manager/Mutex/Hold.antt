-- ===== src/Manager/Mutex/Hold.antt =====
-- That a call that stops workers keeps the mutex to its end.
use any_node.Base.{
  ◌≡◌, refl, sym, ap, ◌∙◌, arith, Bool, true, false, if◌then◌else◌, ◌⊎◌, inl, inr, Option, none,
  some, some_inj, [], ◌∷◌,
}
use any_node.Base.Dict.{find, put, erase, string_eq, find-put, find-erase}
use any_node.Double.{Double}
use any_node.Worker.{Worker, thread, exited, Platform, is_destructible}
use any_node.Manager.Defs.{Manager, Client}
use any_node.Manager.Mutex.{
  Task, Stage, next_worker, joining, System, Step, turns, asks, calls, locks, checks_one, stops_one,
  joined, erases_one, returns, Reach, here, next, joins,
}
use Prim.Native.String.{String}

abbrev pub client_of : Stage → Client
client_of (next_worker task) = task.client
client_of (joining name task) = task.client

abbrev pub is_found : {D : Type 0} → Option (Worker D) → Bool
is_found none = false
is_found (some w) = true

only : {b c : Bool} → b ≡ c → b ≡ true → c ≡ true
only e h = sym e ∙ h

module _ {D : Type 0} ⦃d : Double D⦄ ⦃p : Platform⦄ where
  -- The call of the client has the mutex, and no worker has come.
  pub record Keeps (c : Client) (s q : System D) : Type 0 where
    pub stage : Stage
    pub held : q.stage ≡ some stage
    pub client : client_of stage ≡ c
    pub found :
        (n : String) → is_found (find n q.manager) ≡ true → is_found (find n s.manager) ≡ true

  found-put :
      (n name : String) (v w : Worker D) (m : Manager D)
      → find name m ≡ some w
      → is_found (find n (put name v m)) ≡ is_found (find n m)
  found-put n name v w m e = ground (arith, find-put n name v m, e, string_eq.beq_iff name n)

  found-erase :
      (n name : String) (m : Manager D)
      → is_found (find n (erase name m)) ≡ true
      → is_found (find n m) ≡ true
  found-erase n name m h = ground (arith, find-erase n name m, h)

  Step-Keeps :
      (x : Stage) {s q : System D}
      → Step s q
      → s.stage ≡ some x
      → Keeps (client_of x) s q ⊎ (q.stage ≡ none)
  Step-Keeps x {s} (turns name w i e a f) h = inl record {
    stage = x;
    held = ap (λ y. y.stage) f ∙ h;
    client = refl;
    found =
        λ n. only ((ap (λ y. is_found (find n y.manager)) f) ∙ found-put n name _ w s.manager e);
  }
  Step-Keeps x (asks name w e a f) h = inl record {
    stage = x;
    held = ap (λ y. y.stage) f ∙ h;
    client = refl;
    found = λ n. only (ap (λ y. is_found (find n y.manager)) f);
  }
  Step-Keeps x (calls c inputs call m es n a b e f) h = absurd (ground (arith, n, h))
  Step-Keeps x (locks c call task n a e f) h = absurd (ground (arith, n, h))
  Step-Keeps x (checks_one task name rest w g e f) h = inl record {
    stage = _;
    held = ap (λ y. y.stage) f;
    client =
        checked (is_destructible w) name (record task { todo = []; erased = []; checks = rest })
        ∙ ap client_of (some_inj _ _ (sym g ∙ h));
    found = λ n. only (ap (λ y. is_found (find n y.manager)) f);
  }
    where
      checked :
          (b : Bool) (name : String) (t : Task)
          → (if b then record t { todo = (name, true) ∷ []; erased = name ∷ [] } else t).client
            ≡ t.client
      checked true name t = refl
      checked false name t = refl
  Step-Keeps x {s} (stops_one task name wait rest w g e f) h = inl record {
    stage = _;
    held = ap (λ y. y.stage) f;
    client =
        after (joins task.client name wait w) name (record task { todo = rest })
        ∙ ap client_of (some_inj _ _ (sym g ∙ h));
    found =
        λ n. only ((ap (λ y. is_found (find n y.manager)) f) ∙ found-put n name _ w s.manager e);
  }
    where
      after :
          (b : Bool) (name : String) (t : Task)
          → client_of (if b then joining name t else next_worker t) ≡ t.client
      after true name t = refl
      after false name t = refl
  Step-Keeps x {s} (joined task name w g e u f) h = inl record {
    stage = next_worker task;
    held = ap (λ y. y.stage) f;
    client = ap client_of (some_inj _ _ (sym g ∙ h));
    found =
        λ n. only ((ap (λ y. is_found (find n y.manager)) f) ∙ found-put n name _ w s.manager e);
  }
  Step-Keeps x {s} (erases_one task name rest g a f) h = inl record {
    stage = _;
    held = ap (λ y. y.stage) f;
    client = ap client_of (some_inj _ _ (sym g ∙ h));
    found = λ n k. found-erase n name s.manager (ap (λ y. is_found (find n y.manager)) (sym f) ∙ k);
  }
  Step-Keeps x (returns task g f) h = inr (ap (λ y. y.stage) f)

  -- It has returned at some point in between.
  abbrev pub HasReturned : System D → System D → Type 0
  HasReturned s q = (t : System D) × Reach s t × Reach t q × (t.stage ≡ none)

  then_step :
      (x : Stage) {s q r : System D}
      → Reach s q
      → Step q r
      → Keeps (client_of x) s q ⊎ HasReturned s q
      → Keeps (client_of x) s r ⊎ HasReturned s r
  then_step x u st (inr (t, a, b, n)) = inr (t, a, next b st, n)
  then_step x u st (inl k) = elim (Step-Keeps k.stage st k.held) [
    | inl l ↦ inl record {
      stage = l.stage;
      held = l.held;
      client = l.client ∙ k.client;
      found = λ n h. k.found n (l.found n h);
    }
    | inr n ↦ inr (_, next u st, here, n)
  ]

  -- From any point at which a call that stops workers has the mutex, whatever the workers' threads,
  -- their callbacks and other threads do: it has the mutex still, and no worker has come under a new
  -- name, until the call returns.
  pub hold_lem :
      (x : Stage) (s q : System D)
      → s.stage ≡ some x
      → Reach s q
      → Keeps (client_of x) s q ⊎ HasReturned s q
  hold_lem x s q h here = inl record { stage = x; held = h; client = refl; found = λ n h. h }
  hold_lem x s q h (next {q = t} u st) = then_step x u st (hold_lem x s t h u)

  -- The worker's thread has exited at some point in between.
  abbrev pub HasExited : String → System D → System D → Type 0
  HasExited name s q =
      (t : System D) × (w : Worker D) × Reach s t
      × Reach t q
      × (find name t.manager ≡ some w)
      × (w.handle ≡ thread exited)
