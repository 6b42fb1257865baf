-- ===== src/Inspect/Find.antt =====
-- What a look-up finds.
use xeus_cpp.Base.{
  ◌≡◌, ◌⊎◌, inl, inr, refl, Bool, true, false, [], ◌∷◌, ◌++◌, List, Option, none, some, codes,
  Bytes, equal_iff, is_empty, if◌then◌else◌, arith, Bool-cases, if_split,
}
use xeus_cpp.Inspect.{
  XmlLib, ClassMemberPredicate, page_field, satisfies, is_member, find_filename, get_filename,
  has_member, satisfies_member, find_kinds, find_name, checks, node_page,
}

-- Somewhere in the list.
pub data Among {ℓ} {A : Type ℓ} (a : A) : List A → Type ℓ where
  first : {as_ : List A} → Among a (a ∷ as_)
  later : {b : A} {as_ : List A} → Among a as_ → Among a (b ∷ as_)

module _ (xml : XmlLib) where
  open xml use {Node, kind_of, child_value, children, Document, load_file, find_node}

  is_member-eq :
      (p : ClassMemberPredicate) (child : Node)
      → is_member xml p child ≡ true
      → (kind_of child ≡ p.kind) × (child_value (codes "name") child ≡ p.child_text)
  unfolding is_member
  is_member-eq p child h = ground (
    arith,
    equal_iff (kind_of child) p.kind,
    equal_iff (child_value (codes "name") child) p.child_text,
  )

  -- A page of a member: the class has a child of the kind and the name that are asked for, and the page is what that
  -- child names.
  pub get_filename-satisfies_member :
      (p : ClassMemberPredicate) (node : Node)
      → satisfies_member xml p node ≡ true
      → (child : Node) × Among child (children node)
        × (kind_of child ≡ p.kind)
        × (child_value (codes "name") child ≡ p.child_text)
        × (get_filename xml p node ≡ child_value (codes "anchorfile") child)
  unfolding satisfies_member get_filename find_filename has_member
  get_filename-satisfies_member p node h = member (children node) (ground arith)
    where
      member :
          (l : List Node)
          → has_member xml p l ≡ true
          → (child : Node) × Among child l
            × (kind_of child ≡ p.kind)
            × (child_value (codes "name") child ≡ p.child_text)
            × (find_filename xml p l ≡ child_value (codes "anchorfile") child)
      member [] e = cc
      member (child ∷ more) e = elim (Bool-cases (is_member xml p child)) [
        | inl y ↦ (child, first, (is_member-eq p child y).0, (is_member-eq p child y).1, rw y)
        | inr n ↦
            let (found, among, k, t, page) = member more (rw n at e) in
            (found, later among, k, t, rw n page)
      ]

  -- A page that was found: in the tag file of one of the configurations there is a node of the name and of one of the
  -- three kinds, and the page is the configuration's URL and the field of that node.
  pub record Found (find_string dir : Bytes) (confs : List (Bytes × Bytes)) (result : Bytes)
      : Type 0 where
    pub url : Bytes
    pub tagfile : Bytes
    pub configured : Among (url, tagfile) confs
    pub node : Node
    pub kind : Bytes
    pub checked : Among kind checks
    pub located :
        find_node
          (satisfies xml (record { kind = kind; child_text = find_string }))
          (load_file (dir ++ codes "/" ++ tagfile))
        ≡ some node
    pub has_kind : kind_of node ≡ kind
    pub has_name : child_value (codes "name") node ≡ find_string
    pub page : result ≡ url ++ child_value (page_field kind) node

  satisfies-eq :
      (kind text : Bytes) (node : Node)
      → satisfies xml (record { kind = kind; child_text = text }) node ≡ true
      → (kind_of node ≡ kind) × (child_value (codes "name") node ≡ text)
  unfolding satisfies
  satisfies-eq kind text node h =
      ground
        (arith, equal_iff (kind_of node) kind, equal_iff (child_value (codes "name") node) text)

  -- Every search gives a node that satisfies its predicate.
  abbrev pub FindsSatisfying : Type 0
  FindsSatisfying =
      (test : Node → Bool) (doc : Document) (node : Node)
      → find_node test doc ≡ some node
      → test node ≡ true

  module _ (finds : FindsSatisfying) (find_string dir : Bytes) (all : List (Bytes × Bytes)) where
    -- Nothing so far, or a page that was found.
    abbrev Result : Bytes → Type 0
    Result result = (is_empty result ≡ true) ⊎ Found find_string dir all result

    kind_page-Result :
        (url tagfile c result : Bytes) (o : Option Node)
        → Among (url, tagfile) all
        → Among c checks
        → find_node
            (satisfies xml (record { kind = c; child_text = find_string }))
            (load_file (dir ++ codes "/" ++ tagfile))
          ≡ o
        → Result result
        → Result (
            if is_empty (node_page xml (page_field c) o)
            then result
            else url ++ node_page xml (page_field c) o)
    kind_page-Result url tagfile c result none a k e r = r
    kind_page-Result url tagfile c result (some node) a k e r =
        if_split Result (is_empty (child_value (page_field c) node)) (λ _. r)
          λ _.
            let (hk, hn) = satisfies-eq c find_string node (finds _ _ node e) in
            inr (record {
              url = url;
              tagfile = tagfile;
              configured = a;
              node = node;
              kind = c;
              checked = k;
              located = e;
              has_kind = hk;
              has_name = hn;
              page = refl;
            })

    find_kinds-Result :
        (url tagfile : Bytes) (cs : List Bytes) (result : Bytes)
        → Among (url, tagfile) all
        → ((c : Bytes) → Among c cs → Among c checks)
        → Result result
        → Result
            (find_kinds xml find_string url (load_file (dir ++ codes "/" ++ tagfile)) result cs)
    unfolding find_kinds
    find_kinds-Result url tagfile [] result a k r = r
    find_kinds-Result url tagfile (c ∷ cs) result a k r =
        find_kinds-Result url tagfile cs _ a (λ d m. k d (later m))
          (kind_page-Result url tagfile c result _ a (k c first) refl r)

    find_name-Result :
        (confs : List (Bytes × Bytes)) (result : Bytes)
        → ((conf : Bytes × Bytes) → Among conf confs → Among conf all)
        → Result result
        → Result (find_name xml find_string dir result confs)
    unfolding find_name
    find_name-Result [] result within r = r
    find_name-Result ((url, tagfile) ∷ confs) result within r =
        find_name-Result confs _ (λ c m. within c (later m))
          (find_kinds-Result url tagfile checks result (within (url, tagfile) first) (λ c m. m) r)

    -- What the look-up of a name finds is a page of a node of that name, in one of the tag files that are configured.
    pub find_name-Found :
        is_empty (find_name xml find_string dir [] all) ≡ false
        → Found find_string dir all (find_name xml find_string dir [] all)
    find_name-Found n = elim (find_name-Result all [] (λ c m. m) (inl refl)) [
      | inl e ↦ absurd (cc (e, n))
      | inr f ↦ f
    ]
