-- ===== src/Address/Provider.antt =====
-- SetSP(), GetSP(), SetDevice() and GetDevice() of src/DirectPlay8Address.cpp.
use directplay_lite.Common.{ℕ, ◌≡◌, ◌∙◌, List, some, length, if◌then◌else◌}
use directplay_lite.Address.Component.{s_ok, guid, type_guid, get_component}
use directplay_lite.Address.Object.{
  Address, key_provider, key_device, same_string, find_component, make_component,
  get_component_by_name, guid_of, get_sp, get_device, set_sp, set_device,
}
use directplay_lite.Address.Lookup.{find-add_component}

made_guid :
    (to_wide : List ℕ → List ℕ) (n g : List ℕ)
    → length g ≡ 16
    → (make_component to_wide n g type_guid).1 ≡ some (guid n g)
unfolding make_component
made_guid to_wide n g h = rw h

find-set_sp :
    (to_wide : List ℕ → List ℕ) (m g : List ℕ) (a : Address)
    → length g ≡ 16
    → find_component m (set_sp to_wide g a).1.components ≡ (
        if same_string key_provider m
        then some (guid key_provider g)
        else find_component m a.components)
unfolding set_sp
find-set_sp to_wide m g a h =
    find-add_component to_wide m key_provider g type_guid a
    ∙ (rw (made_guid to_wide key_provider g h))

find-set_device :
    (to_wide : List ℕ → List ℕ) (m g : List ℕ) (a : Address)
    → length g ≡ 16
    → find_component m (set_device to_wide g a).1.components ≡ (
        if same_string key_device m
        then some (guid key_device g)
        else find_component m a.components)
unfolding set_device
find-set_device to_wide m g a h =
    find-add_component to_wide m key_device g type_guid a ∙ (rw (made_guid to_wide key_device g h))

-- GetSP() reads back the GUID of SetSP() and GetDevice() that of SetDevice(), and neither set method changes
-- what the other's get method answers. A GUID is 16 bytes.
pub get_sp-set_sp :
    (to_wide : List ℕ → List ℕ) (g : List ℕ) (a : Address)
    → length g ≡ 16
    → (get_sp (set_sp to_wide g a).1 ≡ (s_ok, some g))
      × (get_device (set_sp to_wide g a).1 ≡ get_device a)
      × (get_device (set_device to_wide g a).1 ≡ (s_ok, some g))
      × (get_sp (set_device to_wide g a).1 ≡ get_sp a)
unfolding get_sp get_device get_component_by_name get_component guid_of same_string
get_sp-set_sp to_wide g a h = (
  rw (get_sp, get_component_by_name, find-set_sp to_wide key_provider g a h),
  rw (get_device, get_component_by_name, find-set_sp to_wide key_device g a h),
  rw (get_device, get_component_by_name, find-set_device to_wide key_device g a h),
  rw (get_sp, get_component_by_name, find-set_device to_wide key_provider g a h),
)
