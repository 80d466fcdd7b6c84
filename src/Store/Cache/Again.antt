-- ===== src/Store/Cache/Again.antt =====
-- A store that was saved is loaded again.
use lan_nickname.Base.{
  ℕ, Bool, true, false, List, [], ◌∷◌, ◌++◌, ◌≡◌, refl, sym, ◌∙◌, subst, Option, none, some, Result,
  ok, err, Bytes, codes, equal, equal_iff, equal_ne, ne_of_equal, if◌then◌else◌, All, inl, inr,
  Bool-cases,
}
use lan_nickname.Base.Dict.{Dict, lookup, insert, lookup-insert, NodupKeys, Entries}
use lan_nickname.Config.Load.{Place}
use lan_nickname.Config.State.{System, save_state, save_state-Updates, temporary_of}
use lan_nickname.Files.{World, works, read_file, first_answer}
use lan_nickname.Files.Lines.{line_there}
use lan_nickname.Files.Replace.{relabel-Updates, Updates, text_in}
use lan_nickname.Store.{
  Peer, Store, Snapshot, new_store, load_peers, unusable, take_snapshot, insert_sorted, sort,
  peer_lt, values,
}
use lan_nickname.Store.Cache.{Error, SnapshotJson, load, load_read, decoded, save, save_failed}
use lan_nickname.Store.Invariant.{IsPeer, IsStore}

abbrev pick : Option Peer → Option Peer → Option Peer
pick (some p) o = some p
pick none o = o

-- The last peer of a list that has an identifier.
unfoldable of_id : Bytes → List Peer → Option Peer
unfolding equal
of_id k [] = none
of_id k (p ∷ ps) = pick (of_id k ps) (if equal p.id k then some p else none)

abbrev IsUsable : Peer → Type 0
IsUsable p = unusable p ≡ false

lookup-load_peers :
    (k : Bytes) (ps : List Peer) (s : Store)
    → All IsUsable ps
    → lookup k (load_peers ps s) ≡ pick (of_id k ps) (lookup k s)
unfolding load_peers of_id
lookup-load_peers k [] s _ = refl
lookup-load_peers k (p ∷ ps) s (u, us) = rw u (
    lookup-load_peers k ps (insert p.id p s) us
    ∙ rw lookup-insert (picked (of_id k ps) (equal p.id k)))
  where
    picked :
        (o : Option Peer) (b : Bool)
        → pick o (if b then some p else lookup k s)
          ≡ pick (pick o (if b then some p else none)) (lookup k s)
    picked (some q) b = refl
    picked none true = refl
    picked none false = refl

pick-none : (o r : Option Peer) → pick o r ≡ none → (o ≡ none) × (r ≡ none)
pick-none none r h = (refl, h)
pick-none (some x) r h = cc

if-none : (b : Bool) (p : Peer) → (if b then some p else none) ≡ none → b ≡ false
if-none true p h = cc
if-none false p h = refl

pick-swap :
    (o : Option Peer) (a b : Bool) (p q : Peer)
    → (a ≡ true → b ≡ false)
    → pick (pick o (if a then some p else none)) (if b then some q else none)
      ≡ pick (pick o (if b then some q else none)) (if a then some p else none)
pick-swap (some x) a b p q h = refl
pick-swap none false false p q h = refl
pick-swap none false true p q h = refl
pick-swap none true false p q h = refl
pick-swap none true true p q h = let other : true ≡ false = h refl in cc

of_id-insert_sorted :
    (k : Bytes) (p : Peer) (ps : List Peer)
    → of_id p.id ps ≡ none
    → of_id k (insert_sorted peer_lt p ps) ≡ of_id k (p ∷ ps)
unfolding of_id insert_sorted
of_id-insert_sorted k p [] fresh = refl
of_id-insert_sorted k p (q ∷ ps) fresh =
    let (absent, test) =
      pick-none (of_id p.id ps) (if equal q.id p.id then some q else none) fresh in
    let different = if-none (equal q.id p.id) q test in
    elim (Bool-cases (peer_lt q p)) [
      | inl less ↦ rw less (
          rw (of_id-insert_sorted k p ps absent) (
            pick-swap (of_id k ps) (equal p.id k) (equal q.id k) p q (λ e.
              equal_ne q.id k
                (λ same. ne_of_equal q.id p.id different (same ∙ sym ((equal_iff p.id k).0 e))))))
      | inr more ↦ rw more refl
    ]

of_id-values :
    (k : Bytes) (s : Store) → NodupKeys s → Entries IsPeer s → of_id k (values s) ≡ lookup k s
unfolding of_id lookup
of_id-values k [] u h = refl
of_id-values k ((j, p) ∷ d) (fresh, u) (is, h) =
    rw (of_id-values k d u h, is.keyed)
      (elim (Bool-cases (equal j k)) [
        | inl same ↦
            let absent : lookup k d ≡ none =
              subst (λ x. lookup x d ≡ none) ((equal_iff j k).0 same) fresh in
            rw (same, absent) refl
        | inr other ↦ rw other (pick_none (lookup k d))
      ])
  where
    pick_none : (o : Option Peer) → pick o none ≡ o
    pick_none none = refl
    pick_none (some x) = refl

of_id-sort :
    (k : Bytes) (s : Store)
    → NodupKeys s
    → Entries IsPeer s
    → of_id k (sort peer_lt (values s)) ≡ of_id k (values s)
unfolding of_id sort
of_id-sort k [] u h = refl
of_id-sort k ((j, p) ∷ d) (fresh, u) (is, h) =
    of_id-insert_sorted k p (sort peer_lt (values d))
      (rw is.keyed (of_id-sort j d u h ∙ of_id-values j d u h ∙ fresh))
    ∙ rw (of_id-sort k d u h) refl

All-insert_sorted :
    (p : Peer) (ps : List Peer)
    → IsUsable p
    → All IsUsable ps
    → All IsUsable (insert_sorted peer_lt p ps)
unfolding insert_sorted
All-insert_sorted p [] u _ = (u, tt)
All-insert_sorted p (q ∷ ps) u (v, us) =
    let later = All-insert_sorted p ps u us in
    elim (Bool-cases (peer_lt q p)) [
      | inl less ↦ rw less (v, later)
      | inr more ↦ rw more (u, (v, us))
    ]

All-sort : (ps : List Peer) → All IsUsable ps → All IsUsable (sort peer_lt ps)
unfolding sort
All-sort [] _ = tt
All-sort (p ∷ ps) (u, us) = All-insert_sorted p (sort peer_lt ps) u (All-sort ps us)

lookup-saved :
    (s : Store)
    → IsStore s
    → All IsUsable (values s)
    → (now : ℕ) (k : Bytes)
    → lookup k (load_peers (take_snapshot s now).peers new_store) ≡ lookup k s
unfolding take_snapshot lookup
lookup-saved s is usable now k =
    lookup-load_peers k (sort peer_lt (values s)) new_store (All-sort (values s) usable)
    ∙ pick_end (of_id k (sort peer_lt (values s)))
    ∙ of_id-sort k s is.keys is.entries
    ∙ of_id-values k s is.keys is.entries
  where
    pick_end : (o : Option Peer) → pick o none ≡ o
    pick_end none = refl
    pick_end (some x) = refl

module _ (J : SnapshotJson) (p : Place) where
  -- However the system answers, a saving that succeeds leaves the text of the snapshot, and one that fails
  -- the old state.
  pub save-Updates :
      (S : System) (now : ℕ) (s : Store) (w : World)
      → Updates
          (temporary_of p.path)
          p.path
          (λ x. x ≡ J.marshal (take_snapshot s now) ++ codes "\n")
          w.files
          (save J (some p) S now s w)
  unfolding save
  save-Updates S now s w =
      let text = J.marshal (take_snapshot s now) ++ codes "\n" in
      relabel-Updates save_failed (temporary_of p.path) p.path (λ x. x ≡ text) w.files
        (save_state S p.dir p.path text w)
        (save_state-Updates S p.dir p.path text (λ x. x ≡ text) w.files w refl refl)

  saved_text :
      (P : Bytes → Type 0) (old : Dict Bytes) (r : Result Error (Unit {0}) × World)
      → Updates (temporary_of p.path) p.path P old r
      → r.0 ≡ ok tt
      → P (text_in p.path r.1.files)
  saved_text P old (ok _, w) h e = h.0
  saved_text P old (err f, w) h e = cc

  loaded_text :
      (snapshot : Snapshot) (w : World)
      → J.unmarshal (J.marshal snapshot ++ codes "\n") ≡ some snapshot
      → text_in p.path w.files ≡ J.marshal snapshot ++ codes "\n"
      → first_answer w.answers ≡ works
      → (load J (some p) w).0 ≡ ok (load_peers snapshot.peers new_store)
  unfolding load read_file load_read decoded
  loaded_text snapshot w back text reads =
      let there = line_there p.path w.files (J.marshal snapshot) text in
      rw (reads, there, back) refl

  -- After a well-formed store of usable peers was saved without error, every later load that can read the
  -- file gives a store with the same peer, or none, under every identifier; if JSON reads back what it writes
  -- of the snapshot, and nothing else has changed the file.
  pub load-save :
      (S : System) (now : ℕ) (s : Store) (w later : World)
      → IsStore s
      → All IsUsable (values s)
      → J.unmarshal (J.marshal (take_snapshot s now) ++ codes "\n") ≡ some (take_snapshot s now)
      → (save J (some p) S now s w).0 ≡ ok tt
      → later.files ≡ (save J (some p) S now s w).1.files
      → first_answer later.answers ≡ works
      → (t : Store) × ((load J (some p) later).0 ≡ ok t) × ((k : Bytes) → lookup k t ≡ lookup k s)
  load-save S now s w later is usable back h same reads =
      let snapshot = take_snapshot s now in
      let text = J.marshal snapshot ++ codes "\n" in
      let written =
        saved_text (λ x. x ≡ text) w.files (save J (some p) S now s w) (save-Updates S now s w) h in
      (
        load_peers snapshot.peers new_store,
        loaded_text snapshot later back (rw same written) reads,
        lookup-saved s is usable now,
      )
