-- ===== src/Tests/Pages.antt =====
-- A page request that is out of bounds.
use kirby.Base.{◌≡◌, pos, negsuc}
use kirby.Page.{PageRequest, normalize_page, IsBounded, normalize_page-IsBounded}

abbrev request : PageRequest
request = record { offset = negsuc 4; limit = pos 500 }

normalize_page-IsBounded_example :
    IsBounded (normalize_page request) × (IsBounded request → normalize_page request ≡ request)
normalize_page-IsBounded_example = normalize_page-IsBounded request
