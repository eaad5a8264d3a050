-- ===== src/Http/Request/Render/Keeping.antt =====
-- What `keepAlive` makes of a request that a client has written.
use cs_system_lab.Prelude.{◌≡◌, refl, ap, ◌∙◌, List, [], ◌∷◌, map}
use cs_system_lab.Prelude.Bytes.{Bytes, codes, to_lower, eq_bytes}
use cs_system_lab.Prelude.Map.{Headers, insert, lookup, lookup-insert}
use cs_system_lab.Http.Request.{or_empty, get_header, keep_alive}
use cs_system_lab.Http.Request.Fields.{or_empty-if}
use cs_system_lab.Http.Request.Render.{Message, stored, value_of, wants_keep}
use cs_system_lab.Http.Request.Render.RoundTrip.{parsed}

lookup-stored :
    (name : Bytes) (h : Headers) (kvs : List (Bytes × Bytes))
    → or_empty (lookup name (stored h kvs)) ≡ value_of name kvs (or_empty (lookup name h))
lookup-stored name h [] = refl
lookup-stored name h ((k, v) ∷ kvs) =
    lookup-stored name (insert (map to_lower k) v h) kvs
    ∙ ap (value_of name kvs) (
        ap or_empty (lookup-insert (map to_lower k) name v h)
        ∙ or_empty-if (eq_bytes (map to_lower k) name) v (lookup name h))

pub keep_alive-parsed : (m : Message) (rest : Bytes) → keep_alive (parsed m rest) ≡ wants_keep m
unfolding keep_alive get_header lookup to_lower
keep_alive-parsed m rest = rw (lookup-stored (codes "connection") [] m.fields) refl
