-- ===== src/Proxy/Laws.antt =====
-- Laws of headers: what is read after `set`, and after a list of `set`s.
use temporal_cloud_offering.Prelude.{◌≡◌, List, some, if◌then◌else◌}
use temporal_cloud_offering.Text.{Text, lookup, ◌==◌}
use temporal_cloud_offering.Text.Laws.{lookup-insert}
use temporal_cloud_offering.Proxy.{lower, set_header}

pub lookup-set_header :
    (name value other : Text) (headers : List (Text × Text))
    → lookup other (set_header name value headers)
      ≡ (if lower name == other then some value else lookup other headers)
unfolding set_header
lookup-set_header name value other headers = lookup-insert (lower name) other value headers
