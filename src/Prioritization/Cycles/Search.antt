-- ===== src/Prioritization/Cycles/Search.antt =====
-- The loop of the cycle check: it ends within its fuel, and its answer is right.
use capacityos.Base.{
  ℕ, zero, suc, ◌+◌, ◌≤◌, ◌≡◌, refl, ◌⊎◌, inl, inr, Bool, true, false, some, List, [], ◌∷◌, arith,
  ◌==◌, if◌then◌else◌, Bool-cases, length, subst, ◌||◌, Any, sym, ◌∙◌,
}
use capacityos.Prioritization.{Edge, targets, contains, push_all, search_from}
use capacityos.Prioritization.Cycles.Walks.{
  HasEdge, Reaches, stay, walk, Any-targets, contains-targets,
}

-- The edges that start at a project not visited yet.
abbrev pub unvisited : List ℕ → List Edge → ℕ
unvisited visited [] = 0
unvisited visited ((from, to) ∷ rest) =
    if contains from visited then unvisited visited rest else suc (unvisited visited rest)

length-push_all : (ns stack : List ℕ) → length (push_all ns stack) ≡ length ns + length stack
length-push_all [] stack = omega arith
length-push_all (n ∷ ns) stack = omega (arith, length-push_all ns (n ∷ stack))

-- Visiting a project for the first time uses up its edges.
unvisited-visit :
    (node : ℕ) (visited : List ℕ) (edges : List Edge)
    → contains node visited ≡ false
    → unvisited (node ∷ visited) edges + length (targets node edges) ≡ unvisited visited edges
unvisited-visit node visited [] h = omega arith
unvisited-visit node visited ((from, to) ∷ rest) h = elim (Bool-cases (from == node)) [
  | inl same ↦
      let e : node ≡ from = ground arith in
      let fresh = subst (λ k. contains k visited ≡ false) e h in
      ground (arith, unvisited-visit node visited rest h)
  | inr other ↦ ground (arith, unvisited-visit node visited rest h)
]

search_from_nil :
    (fuel : ℕ) (edges : List Edge) (goal : ℕ) (visited : List ℕ)
    → search_from fuel edges goal visited [] ≡ some false
unfolding search_from
search_from_nil zero edges goal visited = refl
search_from_nil (suc fuel) edges goal visited = refl

pub search_from_total :
    (fuel : ℕ) (edges : List Edge) (goal : ℕ) (visited stack : List ℕ)
    → length stack + unvisited visited edges ≤ fuel
    → (b : Bool) × (search_from fuel edges goal visited stack ≡ some b)
unfolding search_from
search_from_total fuel edges goal visited [] h = (false, search_from_nil fuel edges goal visited)
search_from_total zero edges goal visited (n ∷ stack) h = absurd (omega arith)
search_from_total (suc fuel) edges goal visited (n ∷ stack) h = elim (Bool-cases (n == goal)) [
  | inl hit ↦ (true, ground arith)
  | inr miss ↦ elim (Bool-cases (contains n visited)) [
    | inl again ↦
        let (b, e) = search_from_total fuel edges goal visited stack (omega arith) in
        (b, ground arith)
    | inr fresh ↦
        let (b, e) =
          search_from_total fuel edges goal (n ∷ visited) (push_all (targets n edges) stack) (
            omega (
              arith,
              unvisited-visit n visited edges fresh,
              length-push_all (targets n edges) stack,
            )) in
        (b, ground arith)
  ]
]

Any-push_all :
    (P : ℕ → Type 0) (ns stack : List ℕ) → Any P (push_all ns stack) → Any P ns ⊎ Any P stack
Any-push_all P [] stack h = inr h
Any-push_all P (n ∷ ns) stack h = elim (Any-push_all P ns (n ∷ stack) h) [
  | inl p ↦ inl (inr p)
  | inr (inl p) ↦ inl (inl p)
  | inr (inr p) ↦ inr p
]

-- If the loop answers yes, then a walk leads from a project on the stack to the goal.
pub search_from_sound :
    (fuel : ℕ) (edges : List Edge) (goal : ℕ) (visited stack : List ℕ)
    → search_from fuel edges goal visited stack ≡ some true
    → Any (λ n. Reaches edges n goal) stack
unfolding search_from
search_from_sound fuel edges goal visited [] h =
    let clash = sym (search_from_nil fuel edges goal visited) ∙ h in cc
search_from_sound zero edges goal visited (n ∷ stack) h = absurd (ground arith)
search_from_sound (suc fuel) edges goal visited (n ∷ stack) h = elim (Bool-cases (n == goal)) [
  | inl hit ↦
      let same : n ≡ goal = ground arith in inl (subst (λ k. Reaches edges n k) same (stay n))
  | inr miss ↦ elim (Bool-cases (contains n visited)) [
    | inl again ↦ inr (search_from_sound fuel edges goal visited stack (ground arith))
    | inr fresh ↦
        let found =
          search_from_sound fuel edges goal (n ∷ visited) (push_all (targets n edges) stack)
            (ground arith) in
        elim (Any-push_all (λ k. Reaches edges k goal) (targets n edges) stack found) [
          | inl next ↦
              let (m, e, w) = Any-targets (λ k. Reaches edges k goal) n edges next in
              inl (walk n m e w)
          | inr rest ↦ inr rest
        ]
  ]
]

contains-push_all :
    (k : ℕ) (ns stack : List ℕ)
    → contains k (push_all ns stack) ≡ (contains k ns || contains k stack)
contains-push_all k [] stack = refl
contains-push_all k (n ∷ ns) stack = ground (arith, contains-push_all k ns (n ∷ stack))

-- Each edge from a visited project leads to a visited one or to the stack.
abbrev pub IsExplored : List Edge → List ℕ → List ℕ → Type 0
IsExplored edges visited stack =
    (a b : ℕ)
    → contains a visited ≡ true
    → HasEdge edges a b
    → (contains b visited || contains b stack) ≡ true

-- Projects that no edge leaves, without the goal.
abbrev pub IsClosedWithout : List Edge → ℕ → List ℕ → Type 0
IsClosedWithout edges goal all =
    (contains goal all ≡ false)
    × ((a b : ℕ) → contains a all ≡ true → HasEdge edges a b → contains b all ≡ true)

abbrev IsWithin : List ℕ → List ℕ → Type 0
IsWithin some_of all = (k : ℕ) → contains k some_of ≡ true → contains k all ≡ true

IsExplored-revisit :
    (edges : List Edge) (visited stack : List ℕ) (n : ℕ)
    → contains n visited ≡ true
    → IsExplored edges visited (n ∷ stack)
    → IsExplored edges visited stack
IsExplored-revisit edges visited stack n again x a b c e = elim (Bool-cases (b == n)) [
  | inl same ↦
      let at : n ≡ b = ground arith in
      let seen = subst (λ k. contains k visited ≡ true) at again in ground arith
  | inr other ↦ let found = x a b c e in ground arith
]

IsExplored-visit :
    (edges : List Edge) (visited stack : List ℕ) (n : ℕ)
    → IsExplored edges visited (n ∷ stack)
    → IsExplored edges (n ∷ visited) (push_all (targets n edges) stack)
IsExplored-visit edges visited stack n x a b c e = elim (Bool-cases (a == n)) [
  | inl same ↦
      let at : a ≡ n = ground arith in
      let out = contains-targets n b edges (subst (λ k. HasEdge edges k b) at e) in
      let pushed = contains-push_all b (targets n edges) stack in ground arith
  | inr other ↦
      let c' : contains a visited ≡ true = ground arith in
      let found = x a b c' e in
      let pushed = contains-push_all b (targets n edges) stack in ground arith
]

pushed-IsWithin :
    (edges : List Edge) (visited stack all : List ℕ) (n : ℕ)
    → IsWithin (push_all (targets n edges) stack) all
    → IsWithin (n ∷ visited) all
    → IsWithin (n ∷ stack) all × IsWithin visited all
pushed-IsWithin edges visited stack all n p v = (
  λ k c.
      let pushed = contains-push_all k (targets n edges) stack in
      let here = v k in let there = p k in ground arith,
  λ k c. let here = v k in ground arith,
)

-- If the loop answers no, then what it visited is closed under edges and misses the goal.
pub search_from_complete :
    (fuel : ℕ) (edges : List Edge) (goal : ℕ) (visited stack : List ℕ)
    → contains goal visited ≡ false
    → IsExplored edges visited stack
    → search_from fuel edges goal visited stack ≡ some false
    → (all : List ℕ) × IsClosedWithout edges goal all × IsWithin stack all × IsWithin visited all
unfolding search_from
search_from_complete fuel edges goal visited [] g x h =
    (visited, (g, λ a b c e. ground (arith, x a b c e)), λ k c. ground arith, λ k c. c)
search_from_complete zero edges goal visited (n ∷ stack) g x h = absurd (ground arith)
search_from_complete (suc fuel) edges goal visited (n ∷ stack) g x h =
    elim (Bool-cases (n == goal)) [
      | inl hit ↦ absurd (ground arith)
      | inr miss ↦ elim (Bool-cases (contains n visited)) [
        | inl again ↦
            let (all, closed, in_stack, in_visited) =
              search_from_complete fuel edges goal visited stack g
                (IsExplored-revisit edges visited stack n again x) (ground arith) in
            (
              all,
              closed,
              λ k c. elim (Bool-cases (k == n)) [
                | inl same ↦
                    let at : n ≡ k = ground arith in
                    in_visited k (subst (λ j. contains j visited ≡ true) at again)
                | inr other ↦ in_stack k (ground arith)
              ],
              in_visited,
            )
        | inr fresh ↦
            let (all, closed, in_stack, in_visited) =
              search_from_complete fuel edges goal (n ∷ visited) (push_all (targets n edges) stack)
                (ground arith) (IsExplored-visit edges visited stack n x) (ground arith) in
            let within = pushed-IsWithin edges visited stack all n in_stack in_visited in
            (all, closed, within.0, within.1)
      ]
    ]
