-- ===== src/Inventory/Spacing.antt =====
-- How far apart the analyses of the inventory page begin.
use beidar_pos.Prelude.{
  ℕ, ◌+◌, ◌≤◌, ◌≡◌, refl, sym, ◌∙◌, inl, inr, String, Bool, true, false, Option, none, some, List,
  [], ◌∷◌, arith, All, Bool-cases,
}
use beidar_pos.Store.{Storage}
use beidar_pos.Cart.{Product}
use beidar_pos.Inventory.{
  Codec, IsRead, cache_key, mount, begin_analysis, analysis_listed, analysis_done, set_filters,
  hide_report, not_yet,
}
use beidar_pos.Inventory.Analysis.{
  Machine, Event, clicked, listed, reported, restarted, left, late, filtered, hidden, opened,
  list_of, report_of, late_of, step, run,
}

-- Clocks do not show 0.
abbrev pub IsTimed : Event → Type 0
IsTimed (clicked now) = 1 ≤ now
IsTimed _ = Unit

-- The page is left only while no analysis is under way.
abbrev pub IsPatient : Codec → List Event → Machine → Type 0
IsPatient c [] m = Unit
IsPatient c (left ∷ events) m = (m.running ≡ none) × IsPatient c events (step c left m)
IsPatient c (e ∷ events) m = IsPatient c events (step c e m)

-- The page is not left by the event while an analysis is under way.
abbrev Stays : Event → Machine → Type 0
Stays left m = m.running ≡ none
Stays _ m = Unit

-- Each began at least a minute after the one before it.
abbrev pub IsSpaced : List ℕ → Type 0
IsSpaced [] = Unit
IsSpaced (t ∷ []) = Unit
IsSpaced (t ∷ u ∷ rest) = (u + 60000 ≤ t) × IsSpaced (u ∷ rest)

abbrev latest : List ℕ → ℕ
latest [] = 0
latest (t ∷ rest) = t

-- A time at which an analysis may begin.
abbrev IsNext : List ℕ → Option ℕ → Type 0
IsNext done none = Unit
IsNext [] (some t) = 1 ≤ t
IsNext (u ∷ rest) (some t) = (1 ≤ t) × (u + 60000 ≤ t)

abbrev is_running : Option ℕ → Bool
is_running none = false
is_running (some t) = true

-- The storage has the last of the successful analyses.
abbrev Keeps : Codec → Storage → List ℕ → Type 0
Keeps c storage [] = storage cache_key ≡ none
Keeps c storage (t ∷ rest) =
    (1 ≤ t) × ((report : String) × (storage cache_key ≡ some (c.stringify t report)))

record IsKept (c : Codec) (m : Machine) : Type 0 where
  spaced : IsSpaced m.done
  known : m.state.last_updated ≡ latest m.done
  next : IsNext m.done m.running
  busy : m.state.is_analyzing ≡ is_running m.running
  stored : Keeps c m.storage m.done
  alone : m.detached ≡ []

module _ (c : Codec) (r : IsRead c) where
  restores-latest :
      (storage : Storage) (done : List ℕ)
      → Keeps c storage done
      → ((mount c storage).last_updated ≡ latest done) × ((mount c storage).is_analyzing ≡ false)
  unfolding mount
  restores-latest storage [] k = rw k (refl, refl)
  restores-latest storage (t ∷ rest) (p, (report, k)) =
      rw (k, r.full t report, (r.read t report).1) (refl, refl)

  may_begin :
      (now last : ℕ) (storage : Storage) (done : List ℕ)
      → 1 ≤ now
      → last ≡ latest done
      → Keeps c storage done
      → not_yet last now ≡ false
      → IsNext done (some now)
  may_begin now last storage [] p e k h = p
  may_begin now last storage (t ∷ rest) p e k h = (p, ground (arith, e, k.0, h))

  clicked-IsKept :
      (now : ℕ) (m : Machine) → 1 ≤ now → IsKept c m → IsKept c (step c (clicked now) m)
  unfolding step begin_analysis
  clicked-IsKept now m p k = elim (Bool-cases m.state.is_analyzing) [
    | inl busy ↦ simp busy k
    | inr free ↦ elim (Bool-cases (not_yet m.state.last_updated now)) [
      | inl soon ↦
          rw (free, soon)
            (record {
              spaced = k.spaced;
              known = k.known;
              next = k.next;
              busy = sym free ∙ k.busy;
              stored = k.stored;
              alone = k.alone;
            })
      | inr later ↦
          rw (free, later)
            (record {
              spaced = k.spaced;
              known = k.known;
              next = may_begin now m.state.last_updated m.storage m.done p k.known k.stored later;
              busy = refl;
              stored = k.stored;
              alone = k.alone;
            })
    ]
  ]

  listed-IsKept :
      (reply : Option (List Product)) (running : Option ℕ) (m : Machine)
      → IsKept c (record m { running = running })
      → IsKept c (list_of running (analysis_listed reply m.state) (record m { running = running }))
  unfolding analysis_listed
  listed-IsKept reply none m k = k
  listed-IsKept none (some t) m k = record {
    spaced = k.spaced;
    known = k.known;
    next = tt;
    busy = refl;
    stored = k.stored;
    alone = k.alone;
  }
  listed-IsKept (some []) (some t) m k = record {
    spaced = k.spaced;
    known = k.known;
    next = tt;
    busy = refl;
    stored = k.stored;
    alone = k.alone;
  }
  listed-IsKept (some (p ∷ products)) (some t) m k = record {
    spaced = k.spaced;
    known = k.known;
    next = k.next;
    busy = k.busy;
    stored = k.stored;
    alone = k.alone;
  }

  began-IsSpaced :
      (t : ℕ) (done : List ℕ) → IsNext done (some t) → IsSpaced done → IsSpaced (t ∷ done)
  began-IsSpaced t [] n s = tt
  began-IsSpaced t (u ∷ rest) n s = (n.1, s)

  began_late : (t : ℕ) (done : List ℕ) → IsNext done (some t) → 1 ≤ t
  began_late t [] n = n
  began_late t (u ∷ rest) n = n.0

  reported-IsKept :
      (reply : Option String) (running : Option ℕ) (m : Machine)
      → IsKept c (record m { running = running })
      → IsKept c (report_of c reply running (record m { running = running }))
  unfolding analysis_done
  reported-IsKept reply none m k = k
  reported-IsKept none (some t) m k = record {
    spaced = k.spaced;
    known = k.known;
    next = tt;
    busy = refl;
    stored = k.stored;
    alone = k.alone;
  }
  reported-IsKept (some report) (some t) m k = record {
    spaced = began-IsSpaced t m.done k.next k.spaced;
    known = refl;
    next = tt;
    busy = refl;
    stored = (began_late t m.done k.next, (report, refl));
    alone = k.alone;
  }

  left-IsKept : (m : Machine) → m.running ≡ none → IsKept c m → IsKept c (step c left m)
  unfolding step
  left-IsKept m idle k =
      let l = restores-latest m.storage m.done k.stored in
      record {
        spaced = k.spaced;
        known = l.0;
        next = tt;
        busy = l.1;
        stored = k.stored;
        alone = rw idle k.alone;
      }

  late-IsKept :
      (reply : Option String) (detached : List ℕ) (m : Machine)
      → m.detached ≡ detached
      → IsKept c m
      → IsKept c (late_of c reply detached m)
  late-IsKept reply [] m e k = k
  late-IsKept reply (t ∷ rest) m e k = absurd (ground (arith, e, k.alone))

  step-IsKept :
      (e : Event) (m : Machine) → IsTimed e → Stays e m → IsKept c m → IsKept c (step c e m)
  unfolding step set_filters hide_report
  step-IsKept (clicked now) m p stays k = clicked-IsKept now m p k
  step-IsKept (listed reply) m p stays k = listed-IsKept reply m.running m k
  step-IsKept (reported reply) m p stays k = reported-IsKept reply m.running m k
  step-IsKept restarted m p stays k =
      let l = restores-latest m.storage m.done k.stored in
      record {
        spaced = k.spaced;
        known = l.0;
        next = tt;
        busy = l.1;
        stored = k.stored;
        alone = refl;
      }
  step-IsKept left m p stays k = left-IsKept m stays k
  step-IsKept (late reply) m p stays k = late-IsKept reply m.detached m refl k
  step-IsKept (filtered filters) m p stays k = record {
    spaced = k.spaced;
    known = k.known;
    next = k.next;
    busy = k.busy;
    stored = k.stored;
    alone = k.alone;
  }
  step-IsKept hidden m p stays k = record {
    spaced = k.spaced;
    known = k.known;
    next = k.next;
    busy = k.busy;
    stored = k.stored;
    alone = k.alone;
  }

  first_event :
      (e : Event) (events : List Event) (m : Machine)
      → IsPatient c (e ∷ events) m
      → Stays e m × IsPatient c events (step c e m)
  first_event (clicked now) events m p = (tt, p)
  first_event (listed reply) events m p = (tt, p)
  first_event (reported reply) events m p = (tt, p)
  first_event restarted events m p = (tt, p)
  first_event left events m p = p
  first_event (late reply) events m p = (tt, p)
  first_event (filtered filters) events m p = (tt, p)
  first_event hidden events m p = (tt, p)

  run-IsKept :
      (events : List Event) (m : Machine)
      → All IsTimed events
      → IsPatient c events m
      → IsKept c m
      → IsKept c (run c events m)
  unfolding run
  run-IsKept [] m p s k = k
  run-IsKept (e ∷ events) m p s k =
      let (stays, rest) = first_event e events m s in
      run-IsKept events (step c e m) p.1 rest (step-IsKept e m p.0 stays k)

  -- If the record of the last analysis is read back as it was written, and the page is not left while an analysis is
  -- under way: the analyses that gave a report began at least a minute apart, whatever is clicked, answered and hidden
  -- in between, and also across visits to other pages and restarts of the application.
  pub done-IsSpaced :
      (storage : Storage) (events : List Event)
      → storage cache_key ≡ none
      → All IsTimed events
      → IsPatient c events (opened c storage)
      → IsSpaced (run c events (opened c storage)).done
  done-IsSpaced storage events empty timed patient =
      let l = restores-latest storage [] empty in
      (run-IsKept events (opened c storage) timed patient (record {
        spaced = tt;
        known = l.0;
        next = tt;
        busy = l.1;
        stored = empty;
        alone = refl;
      })).spaced
