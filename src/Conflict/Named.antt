-- ===== src/Conflict/Named.antt =====
-- The name of a conflict copy never takes another copy's place.
use mathlib.Core.Path.{subst}
use my_vault.Base.{
  list_beq_iff, nat_eq, list_eq, ℕ, ◌≡◌, refl, Bool, true, false, not, ◌&&◌, ◌||◌, List, [], ◌∷◌,
  Option, none, some, arith, if◌then◌else◌, ◌==◌, ◌!=◌, ==→≡, Bool-cases, inl, inr, all, any,
  is_some_and, take, ◌++◌, All, unwrap_or, ltb, length,
}
use my_vault.Base.Results.{Result, ok, err}
use my_vault.Text.{Text, codes, is_lower_hex_64}
use my_vault.Text.Digest.{Digest}
use my_vault.Text.Unicode.{Unicode}
use my_vault.Path.{VaultPath}
use my_vault.Conflict.Facts.{fingerprint_eq}
use my_vault.Conflict.Paths.{
  ConflictNameFailure, is_exact_content_path, normalized_collision_key, exact_vault_path,
}
use my_vault.Conflict.Naming.{
  OccupiedConflictCopy, ConflictCopyNameRequest, ConflictCopyName, ConflictCopyNameOutcome, create,
  reuse, needs_reconcile, collisions, decide_collisions, decide_key, decide_candidate,
  prefix_lengths, conflict_naming_version, valid_fingerprint, is_bad_occupied, build_candidate_path,
  name_parts, resolve_from, resolve_source, resolve_conflict_copy_name,
}

-- An entry that is this very copy: the same conflict, content, object and path.
pub record IsSameCopy (request : ConflictCopyNameRequest) (name : ConflictCopyName) (id : Text)
    (o : OccupiedConflictCopy) : Type 0 where
  pub conflict : o.conflict_id ≡ request.conflict_id
  pub content : o.expected_content ≡ request.expected_content
  pub object : o.object_id ≡ id
  pub path : o.destination_path ≡ name.destination_path

abbrev IfKeyed : Text → (OccupiedConflictCopy → Type 0) → OccupiedConflictCopy → Type 0
IfKeyed key P o = o.normalized_collision_key ≡ key → P o

abbrev Free : Text → List OccupiedConflictCopy → Type 0
Free key os = All (IfKeyed key (λ o. ⊥)) os

-- What the colliding entries have, every entry with the key has.
collisions-All :
    (P : OccupiedConflictCopy → Type 0) (key : Text) (os : List OccupiedConflictCopy)
    → All P (collisions key os)
    → All (IfKeyed key P) os
unfolding collisions
collisions-All P key [] h = tt
collisions-All P key (o ∷ os) h = elim (Bool-cases (o.normalized_collision_key == key)) [
  | inl same ↦
      let kept =
        subst (λ (b : Bool). All P (if b then o ∷ collisions key os else collisions key os)) same
          h in
      (λ k. kept.0, collisions-All P key os kept.1)
  | inr other ↦
      let kept =
        subst (λ (b : Bool). All P (if b then o ∷ collisions key os else collisions key os)) other
          h in
      (
        λ k.
            let equal = (list_beq_iff o.normalized_collision_key key).1 k in
            absurd (cc (equal, other)),
        collisions-All P key os kept,
      )
]

same_copies :
    (request : ConflictCopyNameRequest) (name : ConflictCopyName) (id : Text)
    (os : List OccupiedConflictCopy)
    → all
        (λ x.
          x.conflict_id == request.conflict_id && x.expected_content == request.expected_content)
        os
      ≡ true
    → any (λ x. x.object_id != id || x.destination_path != name.destination_path) os ≡ false
    → All (IsSameCopy request name id) os
same_copies request name id [] h k = tt
same_copies request name id (o ∷ os) h k = (
  record {
    conflict = ==→≡ o.conflict_id request.conflict_id (ground arith);
    content = ==→≡ o.expected_content request.expected_content (ground arith);
    object = ==→≡ o.object_id id (ground arith);
    path = ==→≡ o.destination_path name.destination_path (ground arith);
  },
  same_copies request name id os (ground arith) (ground arith),
)

module _ (u : Unicode) (d : Digest) (request : ConflictCopyNameRequest) where
  -- What an outcome promises of the occupied entries.
  abbrev pub IsSafeName : ConflictCopyNameOutcome → Type 0
  IsSafeName (create name) =
      (normalized_collision_key u d name.destination_path ≡ ok name.normalized_collision_key)
      × Free name.normalized_collision_key request.occupied
      × (name.existing_object_id ≡ none)
  IsSafeName (reuse name) =
      (normalized_collision_key u d name.destination_path ≡ ok name.normalized_collision_key)
      × ((id : Text) × (name.existing_object_id ≡ some id)
          × All (IfKeyed name.normalized_collision_key (IsSameCopy request name id))
              request.occupied)
  IsSafeName (needs_reconcile failure) = Unit

  decide_collisions-IsSafeName :
      (name : ConflictCopyName) (os : List OccupiedConflictCopy) (outcome : ConflictCopyNameOutcome)
      → normalized_collision_key u d name.destination_path ≡ ok name.normalized_collision_key
      → name.existing_object_id ≡ none
      → collisions name.normalized_collision_key request.occupied ≡ os
      → decide_collisions request name os ≡ some outcome
      → IsSafeName outcome
  unfolding decide_collisions
  decide_collisions-IsSafeName name [] outcome keyed new found h =
      let is_create : create name ≡ outcome = ground arith in
      subst IsSafeName is_create (
        keyed,
        collisions-All (λ o. ⊥) name.normalized_collision_key request.occupied (rw found tt),
        new,
      )
  decide_collisions-IsSafeName name (o ∷ os) outcome keyed new found h =
      let ours =
        all
          (λ x.
            x.conflict_id == request.conflict_id && x.expected_content == request.expected_content)
          (o ∷ os) in
      let mixed =
        any (λ x. x.object_id != o.object_id || x.destination_path != name.destination_path)
          (o ∷ os) in
      let again : ConflictCopyName = record name { existing_object_id = some o.object_id } in
      let decided = λ (a b : Bool).
        if a
        then if b
          then some (needs_reconcile ConflictNameFailure.invalid_occupied_evidence)
          else some (reuse again)
        else none in
      elim (Bool-cases ours) [
        | inr other ↦
            let gone : decided false mixed ≡ some outcome =
              subst (λ a. decided a mixed ≡ some outcome) other h in
            cc
        | inl all_ours ↦
            let left : decided true mixed ≡ some outcome =
              subst (λ a. decided a mixed ≡ some outcome) all_ours h in
            elim (Bool-cases mixed) [
              | inl bad ↦
                  let is_bad : needs_reconcile ConflictNameFailure.invalid_occupied_evidence
                      ≡ outcome =
                    ground (arith, subst (λ b. decided true b ≡ some outcome) bad left) in
                  subst IsSafeName is_bad tt
              | inr single ↦
                  let is_reuse : reuse again ≡ outcome =
                    ground (arith, subst (λ b. decided true b ≡ some outcome) single left) in
                  subst IsSafeName is_reuse (
                    keyed,
                    (
                      o.object_id,
                      refl,
                      collisions-All (IsSameCopy request again o.object_id)
                          name.normalized_collision_key request.occupied
                          (rw found
                            (same_copies request again o.object_id (o ∷ os) all_ours single)),
                    ),
                  )
            ]
      ]

  decide_key-IsSafeName :
      (n : ℕ) (path : VaultPath) (key : Result Text ConflictNameFailure)
      (outcome : ConflictCopyNameOutcome)
      → normalized_collision_key u d path.as_str ≡ key
      → decide_key u d request n path key ≡ some outcome
      → IsSafeName outcome
  unfolding decide_key
  decide_key-IsSafeName n path (err failure) outcome keyed h =
      let is_failure : needs_reconcile failure ≡ outcome = ground arith in
      subst IsSafeName is_failure tt
  decide_key-IsSafeName n path (ok key) outcome keyed h =
      decide_collisions-IsSafeName _ (collisions key request.occupied) outcome keyed refl refl h

  decide_candidate-IsSafeName :
      (n : ℕ) (candidate : Option VaultPath) (outcome : ConflictCopyNameOutcome)
      → decide_candidate u d request n candidate ≡ some outcome
      → IsSafeName outcome
  unfolding decide_candidate
  decide_candidate-IsSafeName n none outcome h =
      let is_failure : needs_reconcile ConflictNameFailure.invalid_destination_parent ≡ outcome =
        ground arith in
      subst IsSafeName is_failure tt
  decide_candidate-IsSafeName n (some path) outcome h =
      decide_key-IsSafeName n path (normalized_collision_key u d path.as_str) outcome refl h

  unwrap_or-IsSafeName :
      (o : Option ConflictCopyNameOutcome) (rest : ConflictCopyNameOutcome)
      → ((x : ConflictCopyNameOutcome) → o ≡ some x → IsSafeName x)
      → IsSafeName rest
      → IsSafeName (unwrap_or o rest)
  unwrap_or-IsSafeName none rest h r = r
  unwrap_or-IsSafeName (some x) rest h r = h x refl

  resolve_from-IsSafeName :
      (parts : Text × Text) (ns : List ℕ) → IsSafeName (resolve_from u d request parts ns)
  unfolding resolve_from
  resolve_from-IsSafeName parts [] = tt
  resolve_from-IsSafeName parts (n ∷ ns) =
      let suffix = codes " (conflict " ++ (take n request.conflict_id ++ codes ")") in
      let candidate =
        build_candidate_path u d request.destination_parent_path parts.0 parts.1 suffix in
      unwrap_or-IsSafeName (decide_candidate u d request n candidate)
        (resolve_from u d request parts ns) (λ x e. decide_candidate-IsSafeName n candidate x e)
        (resolve_from-IsSafeName parts ns)

  refuse_if-IsSafeName :
      (b : Bool) (f : ConflictNameFailure) (x : ConflictCopyNameOutcome)
      → IsSafeName x
      → IsSafeName (if b then needs_reconcile f else x)
  refuse_if-IsSafeName true f x h = tt
  refuse_if-IsSafeName false f x h = h

  resolve_source-IsSafeName :
      (source : Result VaultPath Unit) → IsSafeName (resolve_source u d request source)
  unfolding resolve_source
  resolve_source-IsSafeName (err e) = tt
  resolve_source-IsSafeName (ok source) =
      refuse_if-IsSafeName
        (is_some_and request.destination_parent_path
          (λ parent. not (is_exact_content_path u parent)))
        ConflictNameFailure.invalid_destination_parent
        (resolve_from u d request (name_parts source) prefix_lengths)
        (resolve_from-IsSafeName (name_parts source) prefix_lengths)

  -- A name that is resolved to be created is free: its key is that of its path, and no occupied
  -- entry has the key. A name that is resolved to be reused is only shared with itself: every
  -- occupied entry with its key is of the same conflict, content, path and object, and that object
  -- is the one to reuse.
  pub resolve_conflict_copy_name-IsSafeName : IsSafeName (resolve_conflict_copy_name u d request)
  unfolding resolve_conflict_copy_name
  resolve_conflict_copy_name-IsSafeName =
      let outcome = resolve_source u d request (exact_vault_path u request.source_path) in
      let crowded =
        ltb 4096 (length request.occupied) || any (is_bad_occupied u d) request.occupied in
      let unprinted = not (valid_fingerprint request.expected_content) in
      let after_crowded =
        if crowded
        then needs_reconcile ConflictNameFailure.invalid_occupied_evidence
        else outcome in
      let after_content =
        if unprinted
        then needs_reconcile ConflictNameFailure.invalid_content_fingerprint
        else after_crowded in
      let after_id =
        if not (is_lower_hex_64 request.conflict_id)
        then needs_reconcile ConflictNameFailure.invalid_conflict_id
        else after_content in
      refuse_if-IsSafeName (request.naming_version != conflict_naming_version)
        ConflictNameFailure.unsupported_naming_version after_id
        (refuse_if-IsSafeName (not (is_lower_hex_64 request.conflict_id))
          ConflictNameFailure.invalid_conflict_id after_content
          (refuse_if-IsSafeName unprinted ConflictNameFailure.invalid_content_fingerprint
            after_crowded
            (refuse_if-IsSafeName crowded ConflictNameFailure.invalid_occupied_evidence outcome
              (resolve_source-IsSafeName (exact_vault_path u request.source_path)))))
