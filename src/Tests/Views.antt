-- ===== src/Tests/Views.antt =====
-- Views, ids as texts, and numbers as values.
use opentracing_cpp.Base.{◌≡◌, refl, not, some, codes}
use opentracing_cpp.Error.{same_bytes}
use opentracing_cpp.StringView.{view_of_range, read_range, to_string, equal_views, differing_views}
use opentracing_cpp.StringView.Shown.{equal_views-same_bytes}

-- "error" twice in one storage.
equal_views-same_bytes_example :
    (equal_views (codes "error;error") (view_of_range 0 5) (view_of_range 6 5)
      ≡ some (same_bytes (codes "error") (codes "error")))
    × (differing_views (codes "error;error") (view_of_range 0 5) (view_of_range 6 5)
        ≡ some (not (same_bytes (codes "error") (codes "error"))))
unfolding to_string read_range
equal_views-same_bytes_example =
    equal_views-same_bytes (codes "error;error") (view_of_range 0 5) (view_of_range 6 5)
      (codes "error") (codes "error") refl refl
