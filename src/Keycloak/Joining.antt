-- ===== src/Keycloak/Joining.antt =====
-- internal/keycloak/client.go: whom AddUserToGroup adds to what.
use nebari_landing.Base.{
  String, ◌≡◌, refl, ap, subst, ◌⊎◌, inl, inr, Bool, true, false, Option, none, some, List, [], ◌∷◌,
  Memᴰ, if◌then◌else◌, is_blank,
}
use nebari_landing.Keycloak.{
  Config, Gocloak, find_group, join, join_created, join_searched, join_user, join_as,
  add_user_to_group,
}

-- A group that is found has the name, up to case, and its id is the first such one.
pub find_group-Memᴰ :
    (equal_fold : String → String → Bool) (wanted : String) (groups : List (String × String))
    → is_blank (find_group equal_fold wanted groups) ≡ false
    → (name : String) × Memᴰ (name, find_group equal_fold wanted groups) groups
      × (equal_fold name wanted ≡ true)
unfolding find_group
find_group-Memᴰ equal_fold wanted [] h = cc h
find_group-Memᴰ equal_fold wanted ((name, id) ∷ rest) h =
    by_name (find_group-Memᴰ equal_fold wanted rest) (equal_fold name wanted) refl h
  where
    by_name :
        (is_blank (find_group equal_fold wanted rest) ≡ false
          → (n : String) × Memᴰ (n, find_group equal_fold wanted rest) rest
            × (equal_fold n wanted ≡ true))
        → (b : Bool) → equal_fold name wanted ≡ b
        → is_blank (if b then id else find_group equal_fold wanted rest) ≡ false
        → (n : String) × Memᴰ
            (n, (if b then id else find_group equal_fold wanted rest))
            ((name, id) ∷ rest)
          × (equal_fold n wanted ≡ true)
    by_name later true e k = (name, Memᴰ.head refl, e)
    by_name later false e k = let (n, mem, same) = later k in (n, Memᴰ.tail mem, same)

module _ (G : Gocloak) (equal_fold : String → String → Bool) (cfg : Config) where
  -- The group is one that the server listed under the name, up to case, or one that it made for it.
  abbrev pub IsGroup : String → String → String → Type 0
  IsGroup token group id =
      ((s : G.Server) × (l : List (String × String)) × (name : String) × ((G.get_groups token
            cfg.realm group s).1
          ≡ some l)
        × Memᴰ (name, id) l
        × (equal_fold name group ≡ true))
      ⊎ ((s : G.Server) × ((G.create_group token cfg.realm group s).1 ≡ some id))

  -- A user that the server knows under exactly the name was added to such a group.
  abbrev pub IsJoined : String → String → G.Server × Bool → Type 0
  IsJoined username group r =
      (token : String) × (user : String) × (id : String) × (s : G.Server) × (t : G.Server)
      × (users : List String) × (r ≡ G.add_user_to_group token cfg.realm user id s)
      × ((G.get_users token cfg.realm username t).1 ≡ some (user ∷ users))
      × IsGroup token group id

  abbrev AddsTo : String → String → String → G.Server × Bool → Type 0
  AddsTo token user group r =
      (id : String) × (s : G.Server) × (r ≡ G.add_user_to_group token cfg.realm user id s)
      × IsGroup token group id

  join_created-adds :
      (token user group : String) (s : G.Server) (p : G.Server × Option String)
      → G.create_group token cfg.realm group s ≡ p
      → (join_created G equal_fold cfg token user p).1 ≡ true
      → AddsTo token user group (join_created G equal_fold cfg token user p)
  join_created-adds token user group s (t, none) e h = cc h
  join_created-adds token user group s (t, some id) e h =
      (id, t, refl, inr (s, ap (λ (q : G.Server × Option String). q.1) e))

  join_searched-adds :
      (token user group : String) (s : G.Server) (p : G.Server × Option (List (String × String)))
      → G.get_groups token cfg.realm group s ≡ p
      → (join_searched G equal_fold cfg token user group p).1 ≡ true
      → AddsTo token user group (join_searched G equal_fold cfg token user group p)
  join_searched-adds token user group s (t, none) e h = cc h
  join_searched-adds token user group s (t, some l) e h =
      by_id (find_group equal_fold group l) refl (is_blank (find_group equal_fold group l)) refl h
    where
      by_id :
          (found : String)
          → find_group equal_fold group l ≡ found
          → (b : Bool) → is_blank (find_group equal_fold group l) ≡ b
          → (if b
              then join_created G equal_fold cfg token user (G.create_group token cfg.realm group t)
              else join G equal_fold cfg token user found t).1
            ≡ true
          → AddsTo token user group (
              if b
              then join_created G equal_fold cfg token user (G.create_group token cfg.realm group t)
              else join G equal_fold cfg token user found t)
      by_id found f true b k = join_created-adds token user group t _ refl k
      by_id found f false b k =
          let (name, mem, same) = find_group-Memᴰ equal_fold group l b in
          (
            found,
            t,
            refl,
            inl (
              s,
              l,
              name,
              ap (λ (q : G.Server × Option (List (String × String))). q.1) e,
              subst (λ i. Memᴰ (name, i) l) f mem,
              same,
            ),
          )

  join_user-joins :
      (token username group : String) (s : G.Server) (p : G.Server × Option (List String))
      → G.get_users token cfg.realm username s ≡ p
      → (join_user G equal_fold cfg token group p).1 ≡ true
      → IsJoined username group (join_user G equal_fold cfg token group p)
  join_user-joins token username group s (t, none) e h = cc h
  join_user-joins token username group s (t, some []) e h = cc h
  join_user-joins token username group s (t, some (user ∷ users)) e h =
      let (id, u, same, of_group) = join_searched-adds token user group t _ refl h in
      (
        token,
        user,
        id,
        u,
        s,
        users,
        same,
        ap (λ (q : G.Server × Option (List String)). q.1) e,
        of_group,
      )

  join_as-joins :
      (username group : String) (p : G.Server × Option String)
      → (join_as G equal_fold cfg username group p).1 ≡ true
      → IsJoined username group (join_as G equal_fold cfg username group p)
  join_as-joins username group (s, none) h = cc h
  join_as-joins username group (s, some token) h = join_user-joins token username group s _ refl h

  -- If AddUserToGroup returns no error, then the first user that the server lists under exactly the
  -- name was added to a group which the server lists under the group's name, up to case, or which
  -- was created for it.
  pub add_user_to_group-IsJoined :
      (username group : String) (s : G.Server)
      → (add_user_to_group G equal_fold cfg username group s).1 ≡ true
      → IsJoined username group (add_user_to_group G equal_fold cfg username group s)
  unfolding add_user_to_group
  add_user_to_group-IsJoined username group s h = join_as-joins username group _ h
