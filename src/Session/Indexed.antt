-- ===== src/Session/Indexed.antt =====
-- src/agent/multi/session/participant.rs: the indices of the registry agree with its participants.
use claude_pilot.Base.{
  String, ◌≡◌, refl, inl, inr, Bool, true, false, ◌&&◌, ◌||◌, not, Option, none, some, List, [],
  ◌∷◌, ◌++◌, map, arith, ◌==◌, string_eq, list_eq, nat_eq, contains, contains-append, keep,
  is_empty, is_some, Bool-cases, Option-cases,
}
use claude_pilot.Base.Assoc.{
  lookup, insert, remove, adjust, lookup-insert, lookup-remove, lookup-adjust,
}
use claude_pilot.Session.Notification.{push_entry}
use claude_pilot.Session.Agents.{
  Participant, ParticipantRegistry, Index, new_registry, push_all, remove_from_index, remove_all,
  group_keys, role_keys, register, remove_participant, update_participant, ids_under, get_all,
}

contains-keep_others :
    (i j : String) (xs : List String)
    → contains (keep (λ x. not (x == i)) xs) j ≡ (contains xs j && not (j == i))
contains-keep_others i j [] = refl
contains-keep_others i j (x ∷ xs) = ground (arith, contains-keep_others i j xs)

contains-is_empty : (xs : List String) (j : String) → is_empty xs ≡ true → contains xs j ≡ false
contains-is_empty [] j h = refl
contains-is_empty (x ∷ xs) j h = cc

pub ids-push_entry :
    (i j k l : String) (m : Index)
    → contains (ids_under l (push_entry k i m)) j
      ≡ (((j == i) && (l == k)) || contains (ids_under l m) j)
ids-push_entry i j k l m = elim (Option-cases (lookup k m)) [
  | inl e ↦ rw (e, lookup-insert l k (i ∷ []) m) (ground arith)
  | inr (ids, e) ↦
      rw (e, lookup-insert l k (ids ++ i ∷ []) m) (ground (arith, contains-append j ids (i ∷ [])))
]

ids-push_all :
    (i j l : String) (ks : List String) (m : Index)
    → contains (ids_under l (push_all i ks m)) j
      ≡ (((j == i) && contains ks l) || contains (ids_under l m) j)
unfolding push_all
ids-push_all i j l [] m = ground arith
ids-push_all i j l (k ∷ ks) m =
    rw (ids-push_all i j l ks (push_entry k i m), ids-push_entry i j k l m) (ground arith)

ids-remove_from_index :
    (i j k l : String) (m : Index)
    → contains (ids_under l (remove_from_index k i m)) j
      ≡ (contains (ids_under l m) j && not ((j == i) && (l == k)))
unfolding remove_from_index
ids-remove_from_index i j k l m = elim (Option-cases (lookup k m)) [
  | inl e ↦ rw (e, remove_from_index) (ground (arith, e))
  | inr (ids, e) ↦ elim (Bool-cases (is_empty (keep (λ x. not (x == i)) ids))) [
    | inl none_left ↦
        rw (e, none_left, remove_from_index, lookup-remove l k m)
          (ground (
            arith,
            e,
            contains-is_empty (keep (λ x. not (x == i)) ids) j,
            contains-keep_others i j ids,
          ))
    | inr some_left ↦
        rw (e, some_left, remove_from_index, lookup-insert l k (keep (λ x. not (x == i)) ids) m)
          (ground (arith, e, contains-keep_others i j ids))
  ]
]

ids-remove_all :
    (i j l : String) (ks : List String) (m : Index)
    → contains (ids_under l (remove_all i ks m)) j
      ≡ (contains (ids_under l m) j && not ((j == i) && contains ks l))
unfolding remove_all
ids-remove_all i j l [] m = ground arith
ids-remove_all i j l (k ∷ ks) m =
    rw (ids-remove_all i j l ks (remove_from_index k i m), ids-remove_from_index i j k l m)
      (ground arith)

-- A registered participant has the key, by a function that gives each its keys.
abbrev pub has_key : (Participant → List String) → String → Option Participant → Bool
has_key f k none = false
has_key f k (some p) = contains (f p) k

-- The index lists under each key those who have it.
abbrev pub Indexes : (Participant → List String) → List (String × Participant) → Index → Type 0
Indexes f ps m = (k id : String) → contains (ids_under k m) id ≡ has_key f k (lookup id ps)

abbrev pub home_keys : Participant → List String
home_keys p = p.home ∷ []

abbrev pub workspace_keys : Participant → List String
workspace_keys p = p.workspace ∷ []

pub record IsRegistry (g : ParticipantRegistry) : Type 0 where
  pub named : (id : String) (p : Participant) → lookup id g.participants ≡ some p → p.id ≡ id
  pub homes : Indexes home_keys g.participants g.module_index
  pub groups : Indexes group_keys g.participants g.group_index
  pub workspaces : Indexes workspace_keys g.participants g.workspace_index
  pub roles : Indexes role_keys g.participants g.role_index

Indexes-push :
    (f : Participant → List String) (ps : List (String × Participant)) (m : Index) (p : Participant)
    → lookup p.id ps ≡ none
    → Indexes f ps m
    → Indexes f (insert p.id p ps) (push_all p.id (f p) m)
Indexes-push f ps m p fresh ok k id =
    rw (ids-push_all p.id id k (f p) m, lookup-insert id p.id p ps, ok k id) (ground (arith, fresh))

Indexes-remove :
    (f : Participant → List String) (ps : List (String × Participant)) (m : Index) (i : String)
    (p : Participant)
    → lookup i ps ≡ some p
    → Indexes f ps m
    → Indexes f (remove i ps) (remove_all i (f p) m)
Indexes-remove f ps m i p known ok k id =
    rw (ids-remove_all i id k (f p) m, lookup-remove id i ps, ok k id) (ground (arith, known))

Indexes-adjust :
    (f : Participant → List String) (ps : List (String × Participant)) (m : Index) (i : String)
    (h : Participant → Participant)
    → ((p : Participant) → f (h p) ≡ f p)
    → Indexes f ps m
    → Indexes f (adjust i h ps) m
Indexes-adjust f ps m i h same ok k id =
    rw (lookup-adjust id i h ps, ok k id)
      (elim (Option-cases (lookup id ps)) [
        | inl e ↦ rw e (ground arith)
        | inr (p, e) ↦ rw e (ground (arith, same p))
      ])

pub insert-named :
    (p : Participant) (id : String) (q : Participant) (ps : List (String × Participant))
    → ((j : String) (r : Participant) → lookup j ps ≡ some r → r.id ≡ j)
    → lookup id (insert p.id p ps) ≡ some q
    → q.id ≡ id
insert-named p id q ps named e = ground (arith, lookup-insert id p.id p ps, named id q)

pub register-IsRegistry :
    (p : Participant) (g : ParticipantRegistry)
    → lookup p.id g.participants ≡ none
    → IsRegistry g
    → IsRegistry (register p g)
unfolding register push_all
register-IsRegistry p g fresh ok = record {
  named = λ id q e. insert-named p id q g.participants ok.named e;
  homes = Indexes-push home_keys g.participants g.module_index p fresh ok.homes;
  groups = Indexes-push group_keys g.participants g.group_index p fresh ok.groups;
  workspaces = Indexes-push workspace_keys g.participants g.workspace_index p fresh ok.workspaces;
  roles = Indexes-push role_keys g.participants g.role_index p fresh ok.roles;
}

pub remove_participant-IsRegistry :
    (id : String) (g : ParticipantRegistry) → IsRegistry g → IsRegistry (remove_participant id g).0
unfolding remove_participant remove_all
remove_participant-IsRegistry id g ok = elim (Option-cases (lookup id g.participants)) [
  | inl e ↦ rw (e, remove_participant) ok
  | inr (p, e) ↦
      rw (e, remove_participant)
        (record {
          named = λ j q h. ground (arith, lookup-remove j id g.participants, ok.named j q);
          homes = Indexes-remove home_keys g.participants g.module_index id p e ok.homes;
          groups = Indexes-remove group_keys g.participants g.group_index id p e ok.groups;
          workspaces =
              Indexes-remove workspace_keys g.participants g.workspace_index id p e ok.workspaces;
          roles = Indexes-remove role_keys g.participants g.role_index id p e ok.roles;
        })
]

-- What leaves the name and the keys of a participant.
pub record IsUpdate (h : Participant → Participant) : Type 0 where
  pub id : (p : Participant) → (h p).id ≡ p.id
  pub home : (p : Participant) → home_keys (h p) ≡ home_keys p
  pub group : (p : Participant) → group_keys (h p) ≡ group_keys p
  pub workspace : (p : Participant) → workspace_keys (h p) ≡ workspace_keys p
  pub roles : (p : Participant) → role_keys (h p) ≡ role_keys p

pub update_participant-IsRegistry :
    (i : String) (h : Participant → Participant) (g : ParticipantRegistry)
    → IsUpdate h
    → IsRegistry g
    → IsRegistry (update_participant i h g)
unfolding update_participant
update_participant-IsRegistry i h g same ok = record {
  named = λ id q e. elim (Option-cases (lookup id g.participants)) [
    | inl f ↦ ground (arith, lookup-adjust id i h g.participants)
    | inr (p, f) ↦ ground (arith, lookup-adjust id i h g.participants, ok.named id p, same.id p)
  ];
  homes = Indexes-adjust home_keys g.participants g.module_index i h same.home ok.homes;
  groups = Indexes-adjust group_keys g.participants g.group_index i h same.group ok.groups;
  workspaces =
      Indexes-adjust workspace_keys g.participants g.workspace_index i h same.workspace
        ok.workspaces;
  roles = Indexes-adjust role_keys g.participants g.role_index i h same.roles ok.roles;
}

pub new_registry-IsRegistry : IsRegistry new_registry
unfolding new_registry lookup
new_registry-IsRegistry = record {
  named = λ id p e. cc;
  homes = λ k id. refl;
  groups = λ k id. refl;
  workspaces = λ k id. refl;
  roles = λ k id. refl;
}

abbrev pub names : List Participant → List String
names ps = map (λ (p : Participant). p.id) ps

-- What is found under listed identifiers is what is registered under them.
pub get_all-names :
    (ids : List String) (m : List (String × Participant)) (id : String)
    → ((j : String) (p : Participant) → lookup j m ≡ some p → p.id ≡ j)
    → contains (names (get_all ids m)) id ≡ (contains ids id && is_some (lookup id m))
unfolding get_all
get_all-names [] m id named = refl
get_all-names (i ∷ ids) m id named = elim (Option-cases (lookup i m)) [
  | inl e ↦ rw (e, get_all) (ground (arith, e, get_all-names ids m id named))
  | inr (p, e) ↦ rw (e, get_all) (ground (arith, e, named i p, get_all-names ids m id named))
]

pub listed_keys :
    (f : Participant → List String) (g : ParticipantRegistry) (m : Index) (k id : String)
    → IsRegistry g
    → Indexes f g.participants m
    → contains (names (get_all (ids_under k m) g.participants)) id
      ≡ has_key f k (lookup id g.participants)
listed_keys f g m k id ok ix =
    rw (get_all-names (ids_under k m) g.participants id ok.named, ix k id) (ground arith)
