-- ===== src/Forwarder/Routes.antt =====
-- ndn/l3/fwface.go: lpmRoute over the orders that the range loop over the map of routes may take.
use mathlib.Core.List.{Permᴰ}
use mathlib.Core.List.Permᴰ
use containernet_ndn_dpdk.Shared.{
  [], All, ℕ, ◌≡◌, refl, sym, ◌∙◌, subst, ◌↔◌, ◌⊎◌, inl, inr, true, false, List, ◌∷◌, length,
}
use containernet_ndn_dpdk.Shared.Int.{ℤ, pos, negsuc}
use containernet_ndn_dpdk.Name.{Name, is_prefix_of}
use containernet_ndn_dpdk.Forwarder.{lpm_route}
use containernet_ndn_dpdk.Forwarder.Nexthops.{Listed, lpm_route_sound}

abbrev Route : Type 0
Route = List ℕ × Name

-- The length of a route that is a prefix of the name, or -1 where no route is.
abbrev pub Possible : List Route → Name → ℤ → Type 0
Possible routes query v =
    ((key : List ℕ) × (route : Name) × Listed (key, route) routes
      × (is_prefix_of route query ≡ true)
      × (v ≡ pos (length route)))
    ⊎ ((v ≡ negsuc 0) × All (λ (r : Route). is_prefix_of r.1 query ≡ false) routes)

Listed-perm : (x : Route) {l m : List Route} → Permᴰ l m → Listed x l → Listed x m
Listed-perm x (Permᴰ.cons e p) (inl h) = inl (sym e ∙ h)
Listed-perm x (Permᴰ.cons e p) (inr h) = inr (Listed-perm x p h)
Listed-perm x (Permᴰ.swap e d) (inl h) = inr (inl (sym e ∙ h))
Listed-perm x (Permᴰ.swap e d) (inr (inl h)) = inl (sym d ∙ h)
Listed-perm x (Permᴰ.swap e d) (inr (inr h)) = inr (inr h)
Listed-perm x (Permᴰ.trans p q) h = Listed-perm x q (Listed-perm x p h)
Listed-perm x Permᴰ.nil h = h

abbrev Misses : Name → Route → Type 0
Misses query r = is_prefix_of r.1 query ≡ false

All-perm :
    (query : Name) {l m : List Route} → Permᴰ l m → All (Misses query) l → All (Misses query) m
All-perm query Permᴰ.nil h = h
All-perm query (Permᴰ.cons e p) (h, hs) = (subst (Misses query) e h, All-perm query p hs)
All-perm query (Permᴰ.swap e d) (h, (h', hs)) =
    (subst (Misses query) d h', (subst (Misses query) e h, hs))
All-perm query (Permᴰ.trans p q) h = All-perm query q (All-perm query p h)

-- A route may come first.
to_front : (r : Route) (l : List Route) → Listed r l → (rest : List Route) × Permᴰ (r ∷ rest) l
to_front r [] h = elim h [ ]
to_front r (x ∷ xs) (inl e) = (xs, Permᴰ.cons (sym e) (Permᴰ.refl xs))
to_front r (x ∷ xs) (inr h) =
    let (rest, p) = to_front r xs h in
    (x ∷ rest, Permᴰ.trans (Permᴰ.swap refl refl) (Permᴰ.cons refl p))

no_match :
    (l : List Route) (query : Name)
    → All (λ (r : Route). is_prefix_of r.1 query ≡ false) l
    → lpm_route l query ≡ negsuc 0
unfolding lpm_route
no_match [] query h = refl
no_match ((k, name) ∷ l) query (miss, h) = rw miss (no_match l query h)

-- What `lpmRoute` may return, over the orders in which the range loop may take the routes: the length of
-- each route that is a prefix of the name, not of the longest one only, and -1 if and only if there is none.
pub lpm_route_orders :
    (routes : List Route) (query : Name) (v : ℤ)
    → ((order : List Route) × Permᴰ order routes × (lpm_route order query ≡ v))
      ↔ Possible routes query v
unfolding lpm_route
lpm_route_orders routes query v = (
  λ (order, p, e). elim (lpm_route_sound order query) [
    | inl (key, route, there, fits, len) ↦
        inl (key, route, Listed-perm (key, route) p there, fits, sym e ∙ len)
    | inr (absent, misses) ↦ inr (sym e ∙ absent, All-perm query p misses)
  ],
  λ possible. elim possible [
    | inl (key, route, there, fits, len) ↦
        let (rest, p) = to_front (key, route) routes there in
        ((key, route) ∷ rest, p, rw fits (sym len))
    | inr (absent, misses) ↦ (routes, Permᴰ.refl routes, no_match routes query misses ∙ sym absent)
  ],
)
