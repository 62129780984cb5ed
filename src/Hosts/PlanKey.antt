-- ===== src/Hosts/PlanKey.antt =====
-- `get_plan_cache_key` of backend/core/progress/progress_util.py.
use tugtainer.Base.{
  Bool, true, false, List, [], ◌∷◌, ◌++◌, Text, codes, join, ltb, ◌||◌, ◌&&◌, eqb, if◌then◌else◌,
}
use tugtainer.Db.{HostsModel}
use tugtainer.Plan.Build.{UpdatePlan}
use tugtainer.Progress.{get_host_cache_key}

-- `a <= b` of two texts: by their code points.
unfoldable pub le_text : Text → Text → Bool
le_text [] b = true
le_text (x ∷ a) [] = false
le_text (x ∷ a) (y ∷ b) = ltb x y || eqb x y && le_text a b

unfoldable pub insert_text : Text → List Text → List Text
unfolding le_text
insert_text x [] = x ∷ []
insert_text x (y ∷ l) = let rest = insert_text x l in if le_text x y then x ∷ y ∷ l else y ∷ rest

-- `sorted(s)`, of a set of texts.
unfoldable pub sorted_texts : List Text → List Text
unfolding insert_text
sorted_texts [] = []
sorted_texts (x ∷ l) = insert_text x (sorted_texts l)

-- What Python writes for a text in a list; the name of a container has nothing to escape.
unfoldable pub quoted : List Text → List Text
quoted [] = []
quoted (x ∷ l) = (codes "'" ++ (x ++ codes "'")) ∷ quoted l

unfoldable pub get_plan_cache_key : HostsModel → UpdatePlan → Text
unfolding sorted_texts quoted
get_plan_cache_key host plan =
    get_host_cache_key host
    ++ (codes ":[" ++ (join (codes ", ") (quoted (sorted_texts plan.to_update)) ++ codes "]"))
