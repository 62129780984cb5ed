-- ===== src/Create/Gpus.antt =====
-- backend/core/container_util/map_device_requests_to_gpus.py
use tugtainer.Base.{
  Bool, false, Option, none, some, List, [], ◌∷◌, ◌++◌, Text, codes, lower, ◌==◌, is_empty, add,
  or_else, join, contains_text, decimal, ℤ, pos, negsuc, eqb, if◌then◌else◌,
}
use tugtainer.Inspect.{Command, one, many, DeviceRequest}
use tugtainer.Create.Fields.{pairs_of}

abbrev driver_is_nvidia : Option Text → Bool
driver_is_nvidia none = false
driver_is_nvidia (some driver) = lower driver == codes "nvidia"

-- The first request for nvidia's driver.
unfoldable pub gpu_request : List DeviceRequest → Option DeviceRequest
gpu_request [] = none
gpu_request (dr ∷ requests) =
    let rest = gpu_request requests in if driver_is_nvidia dr.driver then some dr else rest

-- The groups of capabilities, flattened.
unfoldable pub flat : List Command → List Text
flat [] = []
flat (one cap ∷ groups) = cap ∷ flat groups
flat (many caps ∷ groups) = caps ++ flat groups

-- `dict.fromkeys(c.lower() for c in caps if c)`
unfoldable pub unique_caps : List Text → List Text → List Text
unique_caps seen [] = seen
unique_caps seen (cap ∷ caps) =
    unique_caps (if is_empty cap then seen else add (lower cap) seen) caps

abbrev count_part : Option ℤ → Text
count_part none = codes "device=all"
count_part (some (negsuc n)) = codes "device=all"
count_part (some (pos n)) = if eqb n 0 then codes "device=all" else codes "count=" ++ decimal n

abbrev device_part : List Text → Option ℤ → Text
device_part [] count = count_part count
device_part (id ∷ ids) count = codes "device=" ++ join (codes ",") (id ∷ ids)

abbrev part_if_any : Text → List Text → List Text
part_if_any name [] = []
part_if_any name (x ∷ xs) = (name ++ join (codes ",") (x ∷ xs)) ∷ []

unfoldable pub gpu_parts : DeviceRequest → List Text
unfolding flat unique_caps
gpu_parts dr =
    device_part (or_else dr.device_ids []) dr.count
    ∷ (part_if_any (codes "capabilities=") (unique_caps [] (flat (or_else dr.capabilities [])))
        ++ part_if_any (codes "options=") (pairs_of (or_else dr.options [])))

abbrev generic : Text
generic = codes "device=all,capabilities=gpu"

-- The test of the source: `res in "device=all,capabilities=gpu"` looks for a part of the text.
unfoldable pub gpus_of : Text → Text
gpus_of res = if contains_text generic res then codes "all" else codes "\"" ++ (res ++ codes "\"")

abbrev gpus_str : Option DeviceRequest → Option Text
gpus_str none = none
gpus_str (some dr) = some (gpus_of (join (codes ",") (gpu_parts dr)))

unfoldable pub map_device_requests_to_gpus : Option (List DeviceRequest) → Option Text
unfolding gpu_request gpu_parts gpus_of
map_device_requests_to_gpus requests = gpus_str (gpu_request (or_else requests []))
