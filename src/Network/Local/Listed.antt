-- ===== src/Network/Local/Listed.antt =====
-- Which addresses `LocalIPs` gives.
use lan_nickname.Base.Dict.{Dict, lookup, Entries, insert-Entries}
use lan_nickname.Base.{
  Bool, true, false, not, ◌&&◌, ◌||◌, List, [], ◌∷◌, ◌≡◌, refl, sym, ◌∙◌, ap, ap₂, subst, inl, inr,
  Bool-cases, arith, Option, none, some, Bytes, map, All, member, equal, equal_iff,
}
use mathlib.Core.Option.{some-injective}
use lan_nickname.Network.Local.{
  Addresses, keys, see, see_all, see_listed, see_on, looked_up, local_ips,
}
use lan_nickname.Network.{Interface}
use lan_nickname.Store.Order.{Ordered, sort-Ordered, sort-All, str_lt-asym}
use lan_nickname.Store.{str_lt, sort}
use lan_nickname.Network.Local.Keys.{
  Distinct, member-sort, own_members, sort-Distinct, member-keys-insert, insert-Distinct,
}

module _ (D : Addresses) where
  -- Whether an address that the source uses has the text k.
  unfoldable pub is_ip : Bytes → Option (Bytes × Bytes) → Bool
  unfolding equal
  is_ip k none = false
  is_ip k (some (ip, mask)) = D.cidr.global ip && not (D.loopback ip) && equal k (D.text ip)

  unfoldable pub any_ip : Bytes → List Bytes → Bool
  unfolding is_ip
  any_ip k [] = false
  any_ip k (a ∷ rest) = is_ip k (D.cidr.parse a) || any_ip k rest

  abbrev pub any_listed : Bytes → Option (List Bytes) → Bool
  any_listed k none = false
  any_listed k (some addresses) = any_ip k addresses

  -- Whether the system lists such an address on an interface that is up and not the loopback.
  unfoldable pub is_local : Bytes → List Interface → Bool
  unfolding any_ip
  is_local k [] = false
  is_local k (i ∷ is) = i.up && not i.loopback && any_listed k i.addrs || is_local k is

  -- The map from the texts.
  record IsSeen (seen : Dict Bytes) : Type 0 where
    keyed : Entries (λ k ip. D.text ip ≡ k) seen
    once : Distinct (keys seen)

  see-IsSeen :
      (o : Option (Bytes × Bytes)) (seen : Dict Bytes) → IsSeen seen → IsSeen (see D o seen)
  unfolding see
  see-IsSeen none seen h = h
  see-IsSeen (some (ip, mask)) seen h =
      elim (Bool-cases (not (D.cidr.global ip) || D.loopback ip)) [
        | inl out ↦ rw out h
        | inr kept ↦ rw kept (record {
          keyed = insert-Entries (λ k x. D.text x ≡ k) (D.text ip) ip seen refl h.keyed;
          once = insert-Distinct (D.text ip) ip seen h.once;
        })
      ]

  see_all-IsSeen : (l : List Bytes) (seen : Dict Bytes) → IsSeen seen → IsSeen (see_all D l seen)
  unfolding see_all
  see_all-IsSeen [] seen h = h
  see_all-IsSeen (a ∷ rest) seen h =
      see_all-IsSeen rest (see D (D.cidr.parse a) seen) (see-IsSeen (D.cidr.parse a) seen h)

  see_listed-IsSeen :
      (o : Option (List Bytes)) (seen : Dict Bytes) → IsSeen seen → IsSeen (see_listed D o seen)
  see_listed-IsSeen none seen h = h
  see_listed-IsSeen (some l) seen h = see_all-IsSeen l seen h

  see_on-IsSeen :
      (is : List Interface) (seen : Dict Bytes) → IsSeen seen → IsSeen (see_on D is seen)
  unfolding see_on
  see_on-IsSeen [] seen h = h
  see_on-IsSeen (i ∷ is) seen h = elim (Bool-cases (not i.up || i.loopback)) [
    | inl out ↦ rw out (see_on-IsSeen is seen h)
    | inr kept ↦
        rw kept (see_on-IsSeen is (see_listed D i.addrs seen) (see_listed-IsSeen i.addrs seen h))
  ]

  module _ (k : Bytes) where
    member-see :
        (o : Option (Bytes × Bytes)) (seen : Dict Bytes)
        → member k (keys (see D o seen)) ≡ (is_ip k o || member k (keys seen))
    unfolding see is_ip
    member-see none seen = refl
    member-see (some (ip, mask)) seen = ground (arith, member-keys-insert k (D.text ip) ip seen)

    member-see_all :
        (l : List Bytes) (seen : Dict Bytes)
        → member k (keys (see_all D l seen)) ≡ (any_ip k l || member k (keys seen))
    unfolding see_all any_ip
    member-see_all [] seen = refl
    member-see_all (a ∷ rest) seen =
        ground (
          arith,
          member-see_all rest (see D (D.cidr.parse a) seen),
          member-see (D.cidr.parse a) seen,
        )

    member-see_listed :
        (o : Option (List Bytes)) (seen : Dict Bytes)
        → member k (keys (see_listed D o seen)) ≡ (any_listed k o || member k (keys seen))
    member-see_listed none seen = refl
    member-see_listed (some l) seen = member-see_all l seen

    member-see_on :
        (is : List Interface) (seen : Dict Bytes)
        → member k (keys (see_on D is seen)) ≡ (is_local k is || member k (keys seen))
    unfolding see_on is_local
    member-see_on [] seen = refl
    member-see_on (i ∷ is) seen = ground (
      arith,
      member-see_on is seen,
      member-see_on is (see_listed D i.addrs seen),
      member-see_listed i.addrs seen,
    )

  has_entry :
      (k : Bytes) (seen : Dict Bytes)
      → Entries (λ j ip. D.text ip ≡ j) seen
      → member k (keys seen) ≡ true
      → (ip : Bytes) × (lookup k seen ≡ some ip) × (D.text ip ≡ k)
  unfolding member lookup
  has_entry k [] h m = cc
  has_entry k ((j, ip) ∷ seen) h m = elim (Bool-cases (equal j k)) [
    | inl same ↦ (ip, rw same refl, h.0 ∙ (equal_iff j k).0 same)
    | inr other ↦
        let (x, there, text) =
          has_entry k seen h.1 (ground (arith, equal_iff j k, equal_iff k j)) in
        (x, rw other there, text)
  ]

  looked_up-texts :
      (seen : Dict Bytes) (ks : List Bytes)
      → Entries (λ j ip. D.text ip ≡ j) seen
      → All (λ k. member k (keys seen) ≡ true) ks
      → map D.text (looked_up seen ks) ≡ ks
  unfolding looked_up
  looked_up-texts seen [] h m = refl
  looked_up-texts seen (k ∷ ks) h m =
      let (ip, there, text) = has_entry k seen h m.0 in
      rw there (ap₂ (λ x xs. x ∷ xs) text (looked_up-texts seen ks h m.1))

  -- Where the system lists its interfaces, the texts of the addresses that `LocalIPs` gives are sorted, each
  -- stands there once, and they are those of the addresses for global use, not of the loopback, of the
  -- interfaces that are up and not the loopback.
  pub local_ips-listed :
      (is : List Interface) (ips : List Bytes) (k : Bytes)
      → local_ips D (some is) ≡ some ips
      → Ordered str_lt (map D.text ips)
        × Distinct (map D.text ips)
        × (member k (map D.text ips) ≡ is_local k is)
  unfolding local_ips member
  local_ips-listed is ips k h =
      let seen = see_on D is [] in
      let s = see_on-IsSeen is [] (record { keyed = tt; once = tt }) in
      let ks = sort str_lt (keys seen) in
      let texts : map D.text ips ≡ ks =
        ap (λ xs. map D.text xs) (some-injective ips (looked_up seen ks) (sym h))
        ∙ looked_up-texts seen ks s.keyed (
            sort-All str_lt (λ j. member j (keys seen) ≡ true) (keys seen)
              (own_members (keys seen))) in
      (
        subst (Ordered str_lt) (sym texts) (sort-Ordered str_lt str_lt-asym (keys seen)),
        subst Distinct (sym texts) (sort-Distinct (keys seen) s.once),
        ap (member k) texts ∙ member-sort k (keys seen) ∙ ground (arith, member-see_on k is []),
      )
