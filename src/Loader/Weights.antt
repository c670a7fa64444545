-- ===== src/Loader/Weights.antt =====
-- pagedllm/model/loader.py: the weights that `load_model` sets, and when it raises.
use paged_llm.Base.{
  ℕ, zero, suc, ap, subst, count-append, ◌<◌, ◌≡◌, ◌⊎◌, inl, inr, refl, List, [], ◌∷◌, Bool, true,
  false, ◌&&◌, Option, none, some, if◌then◌else◌, ◌==◌, contains, count, put_key, contains_of_mem,
  ◌≢◌, get_elem?, ok, raise, key_error, arith, Bool-cases,
}
use paged_llm.Loader.Sets.{nothing_missing_lem, put_key-keeps, put_key-has, some_missing_lem}
use paged_llm.Loader.{Loading, missing, nothing_missing, load_entry, load_entries, load_weights}

abbrev first_or : {T : Type 0} → ℕ → Option (ℕ × T) → ℕ
first_or d none = d
first_or d (some (n, t)) = n

module _ {T : Type 0} (params : List ℕ) (skipped : ℕ → Bool) where
  -- A weight of a parameter that a file has.
  abbrev pub FromFiles : ℕ → T → List (ℕ × T) → Type 0
  FromFiles p t entries = (contains p params ≡ true) × (i : ℕ) × (get_elem? entries i ≡ some (p, t))

  -- Each name of the files is a parameter, or is skipped.
  abbrev pub AllKnown : List (ℕ × T) → Type 0
  AllKnown entries =
      (i p : ℕ) (t : T)
      → get_elem? entries i ≡ some (p, t)
      → (contains p params ≡ true) ⊎ (skipped p ≡ true)

  AllKnown-cons :
      (name : ℕ) (tensor : T) (entries : List (ℕ × T))
      → (contains name params ≡ true) ⊎ (skipped name ≡ true)
      → AllKnown entries
      → AllKnown ((name, tensor) ∷ entries)
  AllKnown-cons name tensor entries known all zero p t e =
      let same : name ≡ p = ap (λ (o : Option (ℕ × T)). first_or name o) e in
      subst (λ q. (contains q params ≡ true) ⊎ (skipped q ≡ true)) same known
  AllKnown-cons name tensor entries known all (suc i) p t e = all i p t e

  taken-cons :
      (name : ℕ) (tensor : T) (entries : List (ℕ × T)) (loaded : List ℕ)
      → (contains name params ≡ true → 0 < count name loaded)
      → ((i p : ℕ) (t : T)
          → get_elem? entries i ≡ some (p, t)
          → contains p params ≡ true
          → 0 < count p loaded)
      → (i p : ℕ) (t : T) → get_elem? ((name, tensor) ∷ entries) i ≡ some (p, t)
      → contains p params ≡ true
      → 0 < count p loaded
  taken-cons name tensor entries loaded takes taken zero p t e =
      let same : name ≡ p = ap (λ (o : Option (ℕ × T)). first_or name o) e in
      subst (λ q. contains q params ≡ true → 0 < count q loaded) same takes
  taken-cons name tensor entries loaded takes taken (suc i) p t e = taken i p t e

  -- Each name in the set has a weight.
  abbrev Filled : Loading T → Type 0
  Filled l = (p : ℕ) → 0 < count p l.loaded → (t : T) × (l.weights p ≡ some t)

  -- What the loops leave, from a state that they found.
  abbrev Loaded : Loading T → List (ℕ × T) → Loading T → Type 0
  Loaded l entries l' =
      Filled l'
      × ((p : ℕ) (t : T) → l'.weights p ≡ some t → (l.weights p ≡ some t) ⊎ FromFiles p t entries)
      × AllKnown entries
      × ((p : ℕ) → 0 < count p l.loaded → 0 < count p l'.loaded)
      × ((i p : ℕ) (t : T)
          → get_elem? entries i ≡ some (p, t)
          → contains p params ≡ true
          → 0 < count p l'.loaded)

  -- The state with one more weight.
  abbrev stored : Loading T → ℕ → T → Loading T
  stored l name tensor = record {
    loaded = put_key name l.loaded;
    weights = λ j. if name == j then some tensor else l.weights j;
  }

  stored-Filled : (l : Loading T) (name : ℕ) (tensor : T) → Filled l → Filled (stored l name tensor)
  unfolding put_key
  stored-Filled l name tensor f p h = elim (Bool-cases (name == p)) [
    | inl here ↦ (tensor, rw here)
    | inr there ↦
        let (t, e) = f p (elim (Bool-cases (contains name l.loaded)) [
          | inl old ↦ rw old at h
          | inr new ↦ ground (arith, count-append p l.loaded (name ∷ []), rw new at h)
        ]) in
        (t, rw there e)
  ]

  Loaded-cons :
      (l l1 l2 : Loading T) (name : ℕ) (tensor : T) (entries : List (ℕ × T))
      → ((p : ℕ) (t : T)
          → l1.weights p ≡ some t
          → (l.weights p ≡ some t)
            ⊎ ((contains p params ≡ true)
                × ◌≡◌ {A = Option (ℕ × T)} (some (name, tensor)) (some (p, t))))
      → (contains name params ≡ true) ⊎ (skipped name ≡ true)
      → ((p : ℕ) → 0 < count p l.loaded → 0 < count p l1.loaded)
      → (contains name params ≡ true → 0 < count name l1.loaded)
      → Loaded l1 entries l2
      → Loaded l ((name, tensor) ∷ entries) l2
  Loaded-cons l l1 l2 name tensor entries new known keeps takes (filled, from, all, kept, taken) = (
    filled,
    λ p t e. elim (from p t e) [
      | inr (is_param, i, at) ↦ inr (is_param, suc i, at)
      | inl before ↦ elim (new p t before) [
        | inl old ↦ inl old
        | inr (is_param, same) ↦ inr (is_param, 0, same)
      ]
    ],
    AllKnown-cons name tensor entries known all,
    λ p h. kept p (keeps p h),
    taken-cons name tensor entries l2.loaded (λ h. kept name (takes h)) taken,
  )

  -- A name in the files that the model does not know.
  abbrev pub Unexpected : List (ℕ × T) → Type 0
  Unexpected entries =
      (i : ℕ) × (p : ℕ) × (t : T) × (get_elem? entries i ≡ some (p, t))
      × (contains p params ≡ false)
      × (skipped p ≡ false)

  load_entries_lem :
      (l : Loading T) (entries : List (ℕ × T))
      → Filled l
      → ((load_entries params skipped l entries ≡ raise key_error) × Unexpected entries)
        ⊎ ((l' : Loading T) × (load_entries params skipped l entries ≡ ok l') × Loaded l entries l')
  unfolding load_entries load_entry
  load_entries_lem l [] f =
      inr (l, refl, (f, λ p t e. inl e, λ i p t e. absurd (cc), λ p h. h, λ i p t e h. absurd (cc)))
  load_entries_lem l ((name, tensor) ∷ entries) f = elim (Bool-cases (contains name params)) [
    | inl is_param ↦
        elim (load_entries_lem (stored l name tensor) entries (stored-Filled l name tensor f)) [
          | inl (e, (i, q, t, at, no_param, fault)) ↦
              inl (rw (is_param, e), (suc i, q, t, at, no_param, fault))
          | inr (l', e, done) ↦ inr (
            l',
            rw (is_param, e),
            Loaded-cons l (stored l name tensor) l' name tensor entries
                (λ p t at. elim (Bool-cases (name == p)) [
                  | inl here ↦ inr (ground (is_param, here, arith), ground (arith, here, at))
                  | inr there ↦ inl (rw there at at)
                ])
                (inl is_param) (put_key-keeps name l.loaded) (λ h. put_key-has name l.loaded) done,
          )
        ]
    | inr foreign ↦ elim (Bool-cases (skipped name)) [
      | inr unexpected ↦
          inl (rw (foreign, unexpected), (zero, name, tensor, refl, foreign, unexpected))
      | inl skip ↦ elim (load_entries_lem l entries f) [
        | inl (e, (i, q, t, at, no_param, fault)) ↦
            inl (rw (foreign, skip, e), (suc i, q, t, at, no_param, fault))
        | inr (l', e, done) ↦ inr (
          l',
          rw (foreign, skip, e),
          Loaded-cons l l l' name tensor entries (λ p t at. inl at) (inr skip) (λ p h. h)
              (λ h. absurd (cc)) done,
        )
      ]
    ]
  ]

  -- The model has all its weights, and no others than those of the files.
  pub record Complete (tied : Bool) (lm_head : ℕ) (entries : List (ℕ × T)) (l : Loading T)
      : Type 0 where
    pub all_set :
        (p : ℕ)
        → 0 < count p params
        → ((t : T) × (l.weights p ≡ some t)) ⊎ ((tied ≡ true) × (p ≡ lm_head))
    pub from_files : (p : ℕ) (t : T) → l.weights p ≡ some t → FromFiles p t entries
    pub known : AllKnown entries

  -- A parameter that no file has.
  abbrev pub Missing : Bool → ℕ → List (ℕ × T) → Type 0
  Missing tied lm_head entries =
      (p : ℕ) × (0 < count p params)
      × ((tied && p == lm_head) ≡ false)
      × ((i : ℕ) (t : T) → get_elem? entries i ≢ some (p, t))

  -- `load_weights` raises KeyError only if a file has a name that is neither a parameter nor
  -- skipped, or if a parameter that is not the tied output layer is in no file. Otherwise each
  -- parameter has a weight, except for the output layer if it is tied; each weight that is set is a
  -- parameter's and is in the files; and each name in the files is a parameter or skipped.
  pub load_weights_lem :
      (tied : Bool) (lm_head : ℕ) (entries : List (ℕ × T))
      → ((load_weights params skipped tied lm_head entries ≡ raise key_error)
          × (Unexpected entries ⊎ Missing tied lm_head entries))
        ⊎ ((l : Loading T) × (load_weights params skipped tied lm_head entries ≡ ok l)
            × Complete tied lm_head entries l)
  unfolding load_weights
  load_weights_lem tied lm_head entries =
      elim (load_entries_lem (record { loaded = []; weights = λ j. none }) entries
        (λ p h. absurd (omega arith))) [
          | inl (e, fault) ↦ inl (rw e, inl fault)
          | inr (l, e, (filled, from, all, kept, taken)) ↦
              let left = missing tied lm_head l.loaded params in
              elim (Bool-cases (nothing_missing left)) [
                | inr some_missing ↦
                    let (p, here, absent, plain) =
                      some_missing_lem tied lm_head l.loaded params some_missing in
                    inl (
                      rw (e, some_missing),
                      inr (
                        p,
                        here,
                        plain,
                        λ i t at.
                            absurd (
                              omega
                                (arith, absent, taken i p t at (contains_of_mem p params here))),
                      ),
                    )
                | inl complete ↦ inr (
                  l,
                  rw (e, complete),
                  record {
                    all_set = λ p h.
                        elim (nothing_missing_lem tied lm_head l.loaded params complete p h) [
                          | inl has ↦ inl (filled p has)
                          | inr exempt ↦ inr exempt
                        ];
                    from_files = λ p t at. elim (from p t at) [
                      | inl none_set ↦ absurd (cc)
                      | inr found ↦ found
                    ];
                    known = all;
                  },
                )
              ]
        ]
