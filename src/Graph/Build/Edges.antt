-- ===== src/Graph/Build/Edges.antt =====
-- Which edges `add_dependencies` adds.
use tentris_lib.Prelude.{ℕ, false, ◌&&◌, not, List, [], ◌∷◌, if◌then◌else◌, ◌==◌}
use tentris_lib.Graph.{Graph, Edge}

-- The labels of the edges from `s` to `t` that are not optional, in order.
abbrev pub labels : List Edge → ℕ → ℕ → List ℕ
labels [] s t = []
labels (e ∷ es) s t =
    if e.source == s && (e.target == t && not e.is_opt)
    then e.var_id ∷ labels es s t
    else labels es s t

-- The labels of a dependency on the given shared variables: 0 if there is none.
abbrev pub dependency_labels : List ℕ → List ℕ
dependency_labels [] = 0 ∷ []
dependency_labels (x ∷ xs) = x ∷ xs

abbrev dependency : ℕ → ℕ → ℕ → Edge
dependency s t x = record { source = s; target = t; var_id = x; is_opt = false }
