-- ===== src/Session/Candidate.antt =====
-- src/agent/multi/session/participant.rs: whom the search for a candidate finds, and what a second
-- registration leaves.
use claude_pilot.Base.{
  String, ◌≡◌, refl, sym, subst, inl, inr, Bool, true, false, ◌&&◌, ◌||◌, not, Option, none, some,
  List, [], ◌∷◌, map, arith, ◌==◌, string_eq, list_eq, nat_eq, eq_refl, ==_iff, contains, any, find,
  Bool-cases, Option-cases,
}
use claude_pilot.Base.Assoc.{lookup, insert, lookup-insert}
use claude_pilot.Session.Notification.{push_entry}
use claude_pilot.Session.Agents.{
  AgentRole, Participant, ParticipantRegistry, new_role, can_fulfill_role, register, ids_under,
  get_all, by_module, by_role, may_take, find_candidate,
}
use claude_pilot.Session.Indexed.{IsRegistry, names, ids-push_entry, get_all-names, insert-named}

find_listed :
    (f : Participant → Bool) (ids : List String) (m : List (String × Participant)) (p : Participant)
    → find f (get_all ids m) ≡ some p
    → (id : String) × (contains ids id ≡ true) × (lookup id m ≡ some p) × (f p ≡ true)
unfolding get_all
find_listed f [] m p h = cc
find_listed f (i ∷ ids) m p h = elim (Option-cases (lookup i m)) [
  | inl e ↦
      let later = find_listed f ids m p (ground (arith, h, e)) in
      (later.0, ground (arith, later.1), later.2, later.3)
  | inr (q, e) ↦ elim (Bool-cases (f q)) [
    | inl good ↦ (i, ground (arith, eq_refl i), ground (arith, h, e), ground (arith, h, e))
    | inr bad ↦
        let later = find_listed f ids m p (ground (arith, h, e, bad)) in
        (later.0, ground (arith, later.1), later.2, later.3)
  ]
]

unfound_listed :
    (f : Participant → Bool) (ids : List String) (m : List (String × Participant)) (id : String)
    (p : Participant)
    → find f (get_all ids m) ≡ none
    → contains ids id ≡ true
    → lookup id m ≡ some p
    → f p ≡ false
unfolding get_all
unfound_listed f [] m id p h listed known = cc
unfound_listed f (i ∷ ids) m id p h listed known = elim (Option-cases (lookup i m)) [
  | inl e ↦ ground (arith, h, e, listed, known, unfound_listed f ids m id p)
  | inr (q, e) ↦ ground (arith, h, e, listed, known, unfound_listed f ids m id p)
]

fulfills-keys :
    (role : String) (rs : List AgentRole)
    → any (λ (r : AgentRole). r.id == role) rs ≡ contains (map (λ (r : AgentRole). r.id) rs) role
fulfills-keys role [] = refl
fulfills-keys role (r ∷ rs) = ground (arith, fulfills-keys role rs)

-- A registered participant that may take a task and has the role.
abbrev pub is_candidate : String → Participant → Bool
is_candidate role p = may_take p && can_fulfill_role (new_role role) p.capabilities

module _ (home role : String) (g : ParticipantRegistry) (ok : IsRegistry g) where
  abbrev local : Option Participant
  local = find (is_candidate role) (by_module home g)

  -- Who is listed under the role and may take a task is a candidate.
  listed_role :
      (id : String) (p : Participant)
      → lookup id g.participants ≡ some p
      → contains (ids_under role g.role_index) id ≡ can_fulfill_role (new_role role) p.capabilities
  unfolding can_fulfill_role
  listed_role id p e = ground (arith, ok.roles role id, e, fulfills-keys role p.capabilities.roles)

  listed_home :
      (id : String) (p : Participant)
      → lookup id g.participants ≡ some p
      → contains (ids_under home g.module_index) id ≡ (home == p.home)
  listed_home id p e = ground (arith, ok.homes home id, e)

  known_id :
      (id : String) (p : Participant)
      → lookup id g.participants ≡ some p
      → lookup p.id g.participants ≡ some p
  known_id id p e = subst (λ i. lookup i g.participants ≡ some p) (sym (ok.named id p e)) e

  found_is_candidate :
      (p : Participant)
      → find_candidate home role g ≡ some p
      → (lookup p.id g.participants ≡ some p) × (is_candidate role p ≡ true)
  unfolding find_candidate by_module by_role
  found_is_candidate p h = elim (Option-cases local) [
    | inl none_local ↦
        let other =
          find_listed may_take (ids_under role g.role_index) g.participants p
            (ground (arith, h, none_local)) in
        (
          known_id other.0 p other.2,
          ground (arith, other.1, other.3, listed_role other.0 p other.2),
        )
    | inr (q, e) ↦
        let here =
          find_listed (is_candidate role) (ids_under home g.module_index) g.participants p
            (ground (arith, h, e)) in
        (known_id here.0 p here.2, here.3)
  ]

  unfound_none :
      find_candidate home role g ≡ none
      → (id : String) (p : Participant) → lookup id g.participants ≡ some p
      → is_candidate role p ≡ false
  unfolding find_candidate by_module by_role
  unfound_none h id p e = elim (Option-cases local) [
    | inl none_local ↦ ground (
      arith,
      h,
      none_local,
      listed_role id p e,
      unfound_listed may_take (ids_under role g.role_index) g.participants id p,
    )
    | inr (q, found) ↦ ground (arith, h, found)
  ]

  found_near :
      (p q : Participant) (id : String)
      → find_candidate home role g ≡ some p
      → lookup id g.participants ≡ some q
      → is_candidate role q ≡ true
      → q.home ≡ home
      → p.home ≡ home
  unfolding find_candidate by_module
  found_near p q id h e good near = elim (Option-cases local) [
    | inl none_local ↦ ground (
      arith,
      none_local,
      e,
      good,
      near,
      listed_home id q e,
      unfound_listed (is_candidate role) (ids_under home g.module_index) g.participants id q,
    )
    | inr (r, found) ↦
        let here =
          find_listed (is_candidate role) (ids_under home g.module_index) g.participants p
            (ground (arith, h, found)) in
        ground (arith, here.1, listed_home here.0 p here.2)
  ]

  -- In a registry whose indices agree, if a registered participant may take a task and has the role,
  -- then one is found, which is registered, may take a task and has the role, and which is of the asked
  -- module if the first is.
  pub find_candidate_lem :
      (q : Participant) (id : String)
      → lookup id g.participants ≡ some q
      → is_candidate role q ≡ true
      → (p : Participant) × (find_candidate home role g ≡ some p)
        × (lookup p.id g.participants ≡ some p)
        × (is_candidate role p ≡ true)
        × ((not (q.home == home) || (p.home == home)) ≡ true)
  find_candidate_lem q id e good = elim (Option-cases (find_candidate home role g)) [
    | inl h ↦ ground (arith, unfound_none h id q e, good)
    | inr (p, h) ↦ (
      p,
      h,
      (found_is_candidate p h).0,
      (found_is_candidate p h).1,
      elim (Bool-cases (q.home == home)) [
        | inl near ↦
            rw (near, found_near p q id h e good ((==_iff q.home home).0 near)) (eq_refl home)
        | inr far ↦ rw far refl
      ],
    )
  ]

-- A participant that is registered again, with another module, is registered with the new one, and
-- still found under the old one.
pub register_again :
    (p q : Participant) (g : ParticipantRegistry)
    → q.id ≡ p.id
    → IsRegistry g
    → (lookup p.id (register q (register p g)).participants ≡ some q)
      × (contains (names (by_module p.home (register q (register p g)))) p.id ≡ true)
unfolding by_module register
register_again p q g same ok = (
  known,
  rw
      (
        get_all-names (ids_under p.home (register q (register p g)).module_index)
            (register q (register p g)).participants p.id named,
        known,
        ids-push_entry q.id p.id q.home p.home (push_entry p.home p.id g.module_index),
        ids-push_entry p.id p.id p.home p.home g.module_index,
      )
      (ground (arith, eq_refl p.id, eq_refl p.home)),
)
  where
    known : lookup p.id (insert q.id q (insert p.id p g.participants)) ≡ some q
    known =
        ground (arith, same, eq_refl p.id, lookup-insert p.id q.id q (insert p.id p g.participants))

    named :
        (j : String) (r : Participant)
        → lookup j (register q (register p g)).participants ≡ some r
        → r.id ≡ j
    named j r e =
        insert-named q j r (insert p.id p g.participants)
          (λ i s f. insert-named p i s g.participants ok.named f) e
