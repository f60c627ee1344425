-- ===== src/Utils/Tests.antt =====
-- Serials at three times, and a page of a tenant's own rows.
use designate_private.Prelude.{◌≤◌, ◌≡◌, refl, false, none, some, [], ◌∷◌, arith}
use designate_private.Prelude.Texts.{codes}
use designate_private.Utils.{
  increment_all, split_host_port, max_word, setting_number, text_number, asc, unordered, page,
  paging_error, invalid_limit, PagingConfig, get_paging_params,
}
use designate_private.Utils.Serials.{increment_all-bounds}
use designate_private.Utils.Pages.{IsLimit, IsSortKey, get_paging_params-IsPaging}

abbrev config : PagingConfig
config = record { default_limit = 20; max_limit = 1000; maxsize = 9223372036854775807 }

-- More than the configured maximum is accepted.
beyond_max :
    get_paging_params config 1 false (some (text_number 5000)) (some 2) asc (some (1 ∷ 2 ∷ []))
    ≡ page (record { limit = text_number 5000; sort_key = some 2; sort_dir = asc })
unfolding get_paging_params
beyond_max = refl

word_max :
    get_paging_params config 1 false (some max_word) (some 1) asc (some (1 ∷ 2 ∷ []))
    ≡ page (record { limit = setting_number 1000; sort_key = none; sort_dir = asc })
unfolding get_paging_params
word_max = refl

zero_refused :
    get_paging_params config 1 false (some (text_number 0)) none unordered none
    ≡ paging_error invalid_limit
unfolding get_paging_params
zero_refused = refl

port_given : split_host_port (λ s. some 5353) (codes "10.0.0.1:5353") 53 ≡ (codes "10.0.0.1", 5353)
unfolding split_host_port
port_given = refl

port_missing : split_host_port (λ s. none) (codes "10.0.0.1") 53 ≡ (codes "10.0.0.1", 53)
unfolding split_host_port
port_missing = refl

increment_all-bounds_example :
    (6 ≤ increment_all (4 ∷ 9 ∷ 9 ∷ []) 3) × (increment_all (4 ∷ 9 ∷ 9 ∷ []) 3 ≤ 12)
increment_all-bounds_example =
    increment_all-bounds (4 ∷ 9 ∷ 9 ∷ []) 3 9 (omega arith, (omega arith, (omega arith, tt)))
      (omega arith)

get_paging_params-IsPaging_example :
    IsLimit config (some (text_number 5000)) (text_number 5000)
    × IsSortKey 1 false (some (1 ∷ 2 ∷ [])) (some 2)
get_paging_params-IsPaging_example =
    get_paging_params-IsPaging config 1 false (some (text_number 5000)) (some 2) asc
      (some (1 ∷ 2 ∷ [])) (record { limit = text_number 5000; sort_key = some 2; sort_dir = asc })
      beyond_max
