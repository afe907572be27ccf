-- ===== src/Server/Roster/Valid.antt =====
-- What src/stigmergy/server/roster.py keeps true of the roster's rows.
use stigmergy.Prelude.{
  ℕ, ◌≡◌, ◌≢◌, ◌↔◌, refl, sym, ap, subst, Bool, true, false, some, ◌⊎◌, inl, List, [], ◌∷◌, ◌++◌,
  ◌==◌, ==_iff, any, keep, update_rows, Text, text_eq, text_eq_iff, In, In-keep, any-false, All,
  All-In, All-imp, All-of, All-append, All-update_In, AllDistinct, AllDistinct-update_rows,
  AllDistinct-snoc, AllDistinct-keep, &&-elim, &&-intro,
}
use stigmergy.Kernel.Layers.{public}
use stigmergy.Server.Roster.{person, Person, Group, Channel, Roster, named, brain_admins}
use stigmergy.Server.Roster.Names.{layer_or_admins, Fields}
use stigmergy.Server.Roster.People.{new_person, updated, switched}
use stigmergy.Server.Roster.Groups.{group_named}
use stigmergy.Server.Roster.Checked.{AreChecked}

-- the tenant has a group of the name
abbrev pub stands : List Group → ℕ → Text → Bool
stands gs t g = any (group_named t g) gs

pub record IsPersonValid (gs : List Group) (p : Person) : Type 0 where
  pub admin_is_person : p.is_admin ≡ true → p.kind ≡ person
  pub admin_unrestricted : p.is_admin ≡ true → In brain_admins p.groups
  pub known : (g : Text) → In g p.groups → stands gs p.tenant_id g ≡ true
  pub layered : (g : Text) → In g p.groups → layer_or_admins g ≡ true
  pub default_is_own :
      (d : Text) × (p.default_audience ≡ some (d ∷ []))
      × ((d ≡ public) ⊎ (In d p.groups × (text_eq d brain_admins ≡ false)))

-- one group of the tenant, and not the unrestricted one
pub record IsOneGroup (gs : List Group) (t : ℕ) (audience : List Text) : Type 0 where
  pub group : Text
  pub alone : audience ≡ group ∷ []
  pub there : stands gs t group ≡ true
  pub restricted : text_eq group brain_admins ≡ false

abbrev pub IsChannelValid : List Group → Channel → Type 0
IsChannelValid gs c = (a : List Text) → c.groups ≡ some a → IsOneGroup gs c.tenant_id a

abbrev pub key : Person → ℕ × Text
key p = (p.tenant_id, p.subject)

pub record IsOrderly (r : Roster) : Type 0 where
  pub people : All (IsPersonValid r.groups) r.people
  pub keys : AllDistinct key r.people
  pub channels : All (IsChannelValid r.groups) r.channels

pub named_iff :
    (t : ℕ) (s : Text) (p : Person) → (named t s p ≡ true) ↔ ((p.tenant_id ≡ t) × (p.subject ≡ s))
named_iff t s p = (
  λ h.
      let (a, b) = &&-elim (t == p.tenant_id) (text_eq p.subject s) h in
      (sym ((==_iff t p.tenant_id).0 a), (text_eq_iff p.subject s).0 b),
  λ e. &&-intro _ _ ((==_iff t p.tenant_id).1 (sym e.0)) ((text_eq_iff p.subject s).1 e.1),
)

pub group_iff :
    (t : ℕ) (s : Text) (g : Group) → (group_named t s g ≡ true) ↔ ((g.tenant_id ≡ t) × (g.name ≡ s))
group_iff t s g = (
  λ h.
      let (a, b) = &&-elim (t == g.tenant_id) (text_eq g.name s) h in
      (sym ((==_iff t g.tenant_id).0 a), (text_eq_iff g.name s).0 b),
  λ e. &&-intro _ _ ((==_iff t g.tenant_id).1 (sym e.0)) ((text_eq_iff g.name s).1 e.1),
)

-- The person keeps its rights under other groups that have those it belongs to.
regrouped :
    (gs hs : List Group) (p : Person)
    → ((g : Text) → In g p.groups → stands gs p.tenant_id g ≡ true → stands hs p.tenant_id g ≡ true)
    → IsPersonValid gs p
    → IsPersonValid hs p
regrouped gs hs p f v = record {
  admin_is_person = v.admin_is_person;
  admin_unrestricted = v.admin_unrestricted;
  known = λ g m. f g m (v.known g m);
  layered = v.layered;
  default_is_own = v.default_is_own;
}

channel_regrouped :
    (gs hs : List Group) (c : Channel)
    → ((a : List Text) (g : Text)
        → c.groups ≡ some a
        → In g a
        → stands gs c.tenant_id g ≡ true
        → stands hs c.tenant_id g ≡ true)
    → IsChannelValid gs c
    → IsChannelValid hs c
channel_regrouped gs hs c f v a e =
    let w = v a e in
    record {
      group = w.group;
      alone = w.alone;
      there = f a w.group e (subst (In w.group) (sym w.alone) (inl refl)) w.there;
      restricted = w.restricted;
    }

module _ (r : Roster) (v : IsOrderly r) where
  fresh_key :
      (t : ℕ) (s : Text) → any (named t s) r.people ≡ false → All (λ p. key p ≢ (t, s)) r.people
  fresh_key t s h =
      All-imp _ _ r.people
        (λ p e same. absurd (cc (e, (named_iff t s p).1 (ap (λ k. k.0) same, ap (λ k. k.1) same))))
        (any-false (named t s) r.people h)

  pub inserted_valid :
      (t now : ℕ) (actor s : Text) (values : Fields)
      → AreChecked r t values
      → any (named t s) r.people ≡ false
      → IsOrderly (record r { people = r.people ++ new_person t now actor s values ∷ [] })
  unfolding new_person
  inserted_valid t now actor s values c h = record {
    people = All-append _ r.people _ v.people (
      record {
        admin_is_person = c.admin_is_person;
        admin_unrestricted = c.admin_unrestricted;
        known = c.known;
        layered = c.layered;
        default_is_own = (values.default_layer, refl, c.default_is_own);
      },
      tt,
    );
    keys = AllDistinct-snoc key r.people _ (fresh_key t s h) v.keys;
    channels = v.channels;
  }

  pub rewritten_valid :
      (t now : ℕ) (actor s : Text) (values : Fields)
      → AreChecked r t values
      → IsOrderly
          (record r { people = update_rows (named t s) (updated now actor values) r.people })
  unfolding updated
  rewritten_valid t now actor s values c = record {
    people =
        All-update_In _ (named t s) (updated now actor values) r.people
          (λ p m w h. record {
            admin_is_person = c.admin_is_person;
            admin_unrestricted = c.admin_unrestricted;
            known = λ g n.
                subst (λ u. stands r.groups u g ≡ true) (sym ((named_iff t s p).0 h).0)
                  (c.known g n);
            layered = c.layered;
            default_is_own = (values.default_layer, refl, c.default_is_own);
          })
          v.people;
    keys = AllDistinct-update_rows key (named t s) _ r.people (λ p. refl) v.keys;
    channels = v.channels;
  }

  pub turned_valid :
      (t now : ℕ) (actor s : Text) (disabled : Bool)
      → IsOrderly
          (record r { people = update_rows (named t s) (switched now actor disabled) r.people })
  unfolding switched
  turned_valid t now actor s disabled = record {
    people =
        All-update_In _ (named t s) (switched now actor disabled) r.people
          (λ p m w h. record {
            admin_is_person = w.admin_is_person;
            admin_unrestricted = w.admin_unrestricted;
            known = w.known;
            layered = w.layered;
            default_is_own = w.default_is_own;
          })
          v.people;
    keys = AllDistinct-update_rows key (named t s) _ r.people (λ p. refl) v.keys;
    channels = v.channels;
  }

  pub removed_valid : (q : Person → Bool) → IsOrderly (record r { people = keep q r.people })
  removed_valid q = record {
    people =
        All-of _ (keep q r.people) (λ p m. All-In _ p r.people v.people (In-keep q p r.people m).0);
    keys = AllDistinct-keep key q r.people v.keys;
    channels = v.channels;
  }

  -- other groups, that have every group that a person or a channel of the roster names
  pub regrouped_valid :
      (hs : List Group)
      → ((p : Person) (g : Text)
          → In p r.people
          → In g p.groups
          → stands r.groups p.tenant_id g ≡ true
          → stands hs p.tenant_id g ≡ true)
      → ((c : Channel) (a : List Text) (g : Text)
          → In c r.channels
          → c.groups ≡ some a
          → In g a
          → stands r.groups c.tenant_id g ≡ true
          → stands hs c.tenant_id g ≡ true)
      → IsOrderly (record r { groups = hs })
  regrouped_valid hs f k = record {
    people =
        All-of _ r.people
          (λ p m. regrouped r.groups hs p (λ g. f p g m) (All-In _ p r.people v.people m));
    keys = v.keys;
    channels = All-of _ r.channels (λ c m.
        channel_regrouped r.groups hs c (λ a g. k c a g m) (All-In _ c r.channels v.channels m));
  }

  pub channels_valid :
      (channels : List Channel)
      → All (IsChannelValid r.groups) channels
      → IsOrderly (record r { channels = channels })
  channels_valid channels h = record { people = v.people; keys = v.keys; channels = h }
