-- ===== src/Device/AllowedIps/Toy.antt =====
-- A concrete table of networks, a list of prefixes. The witnesses use it.
use boringtun.Prelude.{
  ℕ, ◌-◌, ◌/◌, ◌^◌, ◌≡◌, ◌⊎◌, inl, inr, refl, sym, ◌∙◌, Bool, true, false, List, [], ◌∷◌, Option,
  none, some, ltb, leb, ◌==◌, if◌then◌else◌, Bool-cases, arith, Member, at_head, in_tail,
  Member-cases,
}
use boringtun.Bytes.{from_be_bytes}
use boringtun.Packet.{IpAddr, v4, v6}
use boringtun.Device.AllowedIps.{IpTables, IsTables}
use mathlib.Core.Path.{subst}

abbrev pub Prefix : Type 0
Prefix = IpAddr × ℕ

-- The address and the length agree in the first bits.
abbrev pub covers : Prefix → IpAddr → Bool
covers (v4 a, cidr) (v4 b) = from_be_bytes a / 2 ^ (32 - cidr) == from_be_bytes b / 2 ^ (32 - cidr)
covers (v4 a, cidr) (v6 b) = false
covers (v6 a, cidr) (v4 b) = false
covers (v6 a, cidr) (v6 b) =
    from_be_bytes a / 2 ^ (128 - cidr) == from_be_bytes b / 2 ^ (128 - cidr)

abbrev pub prefix_of : IpAddr → ℕ → Option Prefix
prefix_of (v4 a) cidr = if leb cidr 32 then some (v4 a, cidr) else none
prefix_of (v6 a) cidr = if leb cidr 128 then some (v6 a, cidr) else none

module _ {D : Type 0} where
  -- The longer one of two matches.
  abbrev pub longer : Prefix × D → Option (Prefix × D) → Option (Prefix × D)
  longer e none = some e
  longer e (some f) = if ltb e.0.1 f.0.1 then some f else some e

  unfoldable pub longest : List (Prefix × D) → IpAddr → Option (Prefix × D)
  longest [] a = none
  longest (e ∷ es) a = let rest = longest es a in if covers e.0 a then longer e rest else rest

  unfoldable pub keep_only : List (Prefix × D) → (Prefix → D → Bool) → List (Prefix × D)
  keep_only [] keep = []
  keep_only (e ∷ es) keep = let rest = keep_only es keep in if keep e.0 e.1 then e ∷ rest else rest

  longer-cases :
      (e : Prefix × D) (o : Option (Prefix × D)) (f : Prefix × D)
      → longer e o ≡ some f
      → (f ≡ e) ⊎ (o ≡ some f)
  longer-cases e none f h = inl cc
  longer-cases e (some g) f h = elim (Bool-cases (ltb e.0.1 g.0.1)) [
    | inl t ↦ inr (sym (later t) ∙ h)
    | inr t ↦ inl (the_same (sym (earlier t) ∙ h))
  ]
    where
      later : ltb e.0.1 g.0.1 ≡ true → longer e (some g) ≡ some g
      later t = rw t refl

      earlier : ltb e.0.1 g.0.1 ≡ false → longer e (some g) ≡ some e
      earlier t = rw t refl

      the_same : some e ≡ some f → f ≡ e
      the_same q = cc

  longest-Member :
      (es : List (Prefix × D)) (a : IpAddr) (f : Prefix × D)
      → longest es a ≡ some f
      → (covers f.0 a ≡ true) × Member f es
  unfolding longest
  longest-Member [] a f h = absurd cc
  longest-Member (e ∷ es) a f h = elim (Bool-cases (covers e.0 a)) [
    | inl c ↦ elim (longer-cases e (longest es a) f (sym (taken c) ∙ h)) [
      | inl q ↦ (rw (q, c) refl, at_head q)
      | inr q ↦ (let r = longest-Member es a f q in (r.0, in_tail r.1))
    ]
    | inr c ↦ (let r = longest-Member es a f (sym (skipped c) ∙ h) in (r.0, in_tail r.1))
  ]
    where
      taken : covers e.0 a ≡ true → longest (e ∷ es) a ≡ longer e (longest es a)
      taken c = rw c refl

      skipped : covers e.0 a ≡ false → longest (e ∷ es) a ≡ longest es a
      skipped c = rw c refl

  keep_only-Member :
      (es : List (Prefix × D)) (keep : Prefix → D → Bool) (f : Prefix × D)
      → Member f (keep_only es keep)
      → (keep f.0 f.1 ≡ true) × Member f es
  unfolding keep_only
  keep_only-Member [] keep f m = elim m [ ]
  keep_only-Member (e ∷ es) keep f m = elim (Bool-cases (keep e.0 e.1)) [
    | inl c ↦ elim (Member-cases (subst (λ l. Member f l) (taken c) m)) [
      | inl q ↦ (rw (q, c) refl, at_head q)
      | inr n ↦ (let r = keep_only-Member es keep f n in (r.0, in_tail r.1))
    ]
    | inr c ↦
        (let r = keep_only-Member es keep f (subst (λ l. Member f l) (skipped c) m) in
          (r.0, in_tail r.1))
  ]
    where
      taken : keep e.0 e.1 ≡ true → keep_only (e ∷ es) keep ≡ e ∷ keep_only es keep
      taken c = rw c refl

      skipped : keep e.0 e.1 ≡ false → keep_only (e ∷ es) keep ≡ keep_only es keep
      skipped c = rw c refl

  Member-keep_only :
      (es : List (Prefix × D)) (keep : Prefix → D → Bool) (f : Prefix × D)
      → keep f.0 f.1 ≡ true
      → Member f es
      → Member f (keep_only es keep)
  unfolding keep_only
  Member-keep_only [] keep f c m = elim m [ ]
  Member-keep_only (e ∷ es) keep f c (at_head q) =
      let d : keep e.0 e.1 ≡ true = rw (sym q, c) refl in rw d (at_head q)
  Member-keep_only (e ∷ es) keep f c (in_tail m) = elim (Bool-cases (keep e.0 e.1)) [
    | inl d ↦ rw d (in_tail (Member-keep_only es keep f c m))
    | inr d ↦ rw d (Member-keep_only es keep f c m)
  ]

abbrev pub toy_tables : IpTables
toy_tables = record {
  Network = Prefix;
  Table = λ D. List (Prefix × D);
  new_truncate = prefix_of;
  network_address = λ n. n.0;
  netmask = λ n. n.1;
  contains = covers;
  empty = [];
  insert = λ t n d. ((n, d) ∷ t, none);
  longest_match = longest;
  retain = keep_only;
  entries = λ t. t;
}

pub toy_tables-IsTables : IsTables toy_tables
toy_tables-IsTables = record {
  new_truncate-v4 =
      λ a cidr h. ((v4 a, cidr), (let e : leb cidr 32 ≡ true = ground arith in rw e refl));
  new_truncate-v6 =
      λ a cidr h. ((v6 a, cidr), (let e : leb cidr 128 ≡ true = ground arith in rw e refl));
  entries-empty = refl;
  entries-insert = λ t n d e m. Member-cases m;
  inserted = λ t n d. at_head refl;
  entries-retain = keep_only-Member;
  retained = Member-keep_only;
  longest_match-Member = longest-Member;
}
