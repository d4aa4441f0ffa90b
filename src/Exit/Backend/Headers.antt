-- ===== src/Exit/Backend/Headers.antt =====
-- Which headers reach the AI backend.
use token_go.Base.{
  Bytes, text, List, [], ◌∷◌, ◌++◌, none, some, Bool, true, false, Map, insert, lookup, lookup_or,
  lookup-insert, ◌≡◌, ◌≢◌, refl, arith, All, sym, ap, ◌∙◌, if◌then◌else◌,
}
use token_go.Exit.Backend.{
  Header, Incoming, AiClient, is_hop_by_hop_header, header_add, header_set, add_all, copy_headers,
  set_all, inject_headers, inject_auth, outgoing,
}

module _ (canonical : Bytes → Bytes) where
  add_all_other :
      (key : Bytes) (values : List Bytes) (header : Header) (k : Bytes)
      → canonical key ≢ k
      → lookup k (add_all canonical key values header) ≡ lookup k header
  unfolding add_all header_add
  add_all_other key [] header k h = refl
  add_all_other key (value ∷ values) header k h = ground (
    arith,
    add_all_other key values (header_add canonical key value header) k h,
    lookup-insert (canonical key) k (lookup_or [] (canonical key) header ++ value ∷ []) header,
  )

  copy_one_hop :
      (hop : Bool) (key : Bytes) (values : List Bytes) (header : Header) (k : Bytes)
      → canonical key ≡ key
      → is_hop_by_hop_header key ≡ hop
      → is_hop_by_hop_header k ≡ true
      → lookup k (if hop then header else add_all canonical key values header) ≡ lookup k header
  copy_one_hop true key values header k c e h = refl
  copy_one_hop false key values header k c e h =
      add_all_other key values header k
        (λ same. true_ne_false (sym h ∙ ap is_hop_by_hop_header (sym same ∙ c) ∙ e))
    where
      true_ne_false : true ≢ false
      true_ne_false e = cc

  copy_headers_hop :
      (incoming header : Header) (k : Bytes)
      → All (λ h. canonical h.0 ≡ h.0) incoming
      → is_hop_by_hop_header k ≡ true
      → lookup k (copy_headers canonical incoming header) ≡ lookup k header
  unfolding copy_headers
  copy_headers_hop [] header k c h = refl
  copy_headers_hop ((key, values) ∷ incoming) header k c h =
      copy_headers_hop incoming
        (if is_hop_by_hop_header key then header else add_all canonical key values header) k c.1 h
      ∙ copy_one_hop (is_hop_by_hop_header key) key values header k c.0 refl h

  set_all_other :
      (configured : Map Bytes) (header : Header) (k : Bytes)
      → All (λ h. canonical h.0 ≢ k) configured
      → lookup k (set_all canonical configured header) ≡ lookup k header
  unfolding set_all header_set
  set_all_other [] header k h = refl
  set_all_other ((key, value) ∷ configured) header k h = ground (
    arith,
    set_all_other configured (header_set canonical key value header) k h.1,
    lookup-insert (canonical key) k (value ∷ []) header,
  )

  -- Whether the client's own headers decide about a header: none of the Exit's is set under it.
  abbrev pub IsFree : AiClient → Bytes → Type 0
  IsFree c k = All (λ h. canonical h.0 ≢ k) c.headers × (canonical (text "Authorization") ≢ k)

  inject_headers_other :
      (configured : Map Bytes) (api_key : Bytes) (header : Header) (k : Bytes)
      → All (λ h. canonical h.0 ≢ k) configured
      → canonical (text "Authorization") ≢ k
      → lookup k (inject_headers canonical configured api_key header) ≡ lookup k header
  unfolding inject_headers header_set
  inject_headers_other [] [] header k h a = refl
  inject_headers_other [] (b ∷ bs) header k h a = ground (
    arith,
    lookup-insert (canonical (text "Authorization")) k ((text "Bearer " ++ b ∷ bs) ∷ []) header,
  )
  inject_headers_other (x ∷ xs) api_key header k h a = set_all_other (x ∷ xs) header k h

  -- No hop-by-hop header of a request reaches the backend, if the names of the request's headers are
  -- in their canonical form and the Exit sets no such header itself.
  pub outgoing_hop_by_hop :
      (c : AiClient) (req : Incoming) (body k : Bytes)
      → All (λ h. canonical h.0 ≡ h.0) req.header
      → is_hop_by_hop_header k ≡ true
      → IsFree c k
      → lookup k (outgoing canonical c req body).header ≡ none
  unfolding outgoing inject_auth
  outgoing_hop_by_hop c req body k names hop free =
      inject_headers_other c.headers c.api_key (copy_headers canonical req.header []) k free.0
        free.1
      ∙ copy_headers_hop req.header [] k names hop
      ∙ (unfold lookup in refl)

  insert_self :
      (k : Bytes) (v : List Bytes) (header : Header) → lookup k (insert k v header) ≡ some v
  insert_self k v header = ground (arith, lookup-insert k k v header)

  set_all_at :
      (before : Map Bytes) (key value : Bytes) (after : Map Bytes) (header : Header)
      → All (λ h. canonical h.0 ≢ canonical key) after
      → lookup (canonical key) (set_all canonical (before ++ (key, value) ∷ after) header)
        ≡ some (value ∷ [])
  unfolding set_all header_set
  set_all_at [] key value after header h =
      set_all_other after (header_set canonical key value header) (canonical key) h
      ∙ insert_self (canonical key) (value ∷ []) header
  set_all_at ((k, v) ∷ before) key value after header h =
      set_all_at before key value after (header_set canonical k v header) h

  inject_headers_at :
      (before : Map Bytes) (key value : Bytes) (after : Map Bytes) (api_key : Bytes)
      (header : Header)
      → All (λ h. canonical h.0 ≢ canonical key) after
      → lookup
          (canonical key)
          (inject_headers canonical (before ++ (key, value) ∷ after) api_key header)
        ≡ some (value ∷ [])
  unfolding inject_headers
  inject_headers_at [] key value after api_key header h = set_all_at [] key value after header h
  inject_headers_at (b ∷ before) key value after api_key header h =
      set_all_at (b ∷ before) key value after header h

  -- Each header that the Exit configures reaches the backend with its one configured value, whatever
  -- the request says under that name, if no later configured name has the same canonical form.
  pub outgoing_configured :
      (c : AiClient) (req : Incoming) (body : Bytes) (before : Map Bytes) (key value : Bytes)
      (after : Map Bytes)
      → c.headers ≡ before ++ (key, value) ∷ after
      → All (λ h. canonical h.0 ≢ canonical key) after
      → lookup (canonical key) (outgoing canonical c req body).header ≡ some (value ∷ [])
  unfolding outgoing inject_auth
  outgoing_configured c req body before key value after e h =
      rw e (
        inject_headers_at before key value after c.api_key (copy_headers canonical req.header []) h)

  inject_headers_key :
      (api_key : Bytes)
      → api_key ≢ []
      → (header : Header)
      → lookup (canonical (text "Authorization")) (inject_headers canonical [] api_key header)
        ≡ some ((text "Bearer " ++ api_key) ∷ [])
  unfolding inject_headers header_set
  inject_headers_key [] h header = absurd (h refl)
  inject_headers_key (b ∷ bs) h header =
      insert_self (canonical (text "Authorization")) ((text "Bearer " ++ b ∷ bs) ∷ []) header

  -- Without configured headers the API key is the one value of the authorization header, whatever the
  -- request says there.
  pub outgoing_api_key :
      (c : AiClient) (req : Incoming) (body : Bytes)
      → c.headers ≡ []
      → c.api_key ≢ []
      → lookup (canonical (text "Authorization")) (outgoing canonical c req body).header
        ≡ some ((text "Bearer " ++ c.api_key) ∷ [])
  unfolding outgoing inject_auth
  outgoing_api_key c req body e h =
      rw e (inject_headers_key c.api_key h (copy_headers canonical req.header []))
