-- ===== src/Java/Port.antt =====
-- The Java object that library/src/main/jni/serial.c makes of a descriptor.
use serial_port.Prelude.{ℕ, ◌≡◌, refl, some}
use serial_port.Java.{Jvm, file_descriptor}

-- The class java.io.FileDescriptor, and what the machine promises of its objects: they can be made,
-- and a field reads back what was written to it.
record FileDescriptors (jvm : Jvm) : Type 0 where
  class : jvm.Class
  init : jvm.Method
  descriptor : jvm.Field
  class_found : jvm.find_class "java/io/FileDescriptor" ≡ some class
  init_found : jvm.get_method_id class "<init>" "()V" ≡ some init
  descriptor_found : jvm.get_field_id class "descriptor" "I" ≡ some descriptor
  made :
      (h : jvm.Heap)
      → (o : jvm.Object) × (h' : jvm.Heap) × (jvm.new_object class init h ≡ (some o, h'))
  read_back :
      (o : jvm.Object) (f : jvm.Field) (n : ℕ) (h : jvm.Heap)
      → jvm.get_int_field o f (jvm.set_int_field o f n h) ≡ n

module _ {jvm : Jvm} (classes : FileDescriptors jvm) where
  -- The object that is made of a descriptor has the descriptor in its field.
  file_descriptor_lem :
      (fd : ℕ) (h : jvm.Heap)
      → (o : jvm.Object) × (h' : jvm.Heap) × (file_descriptor jvm fd h ≡ some (o, h'))
        × (jvm.get_int_field o classes.descriptor h' ≡ fd)
  unfolding file_descriptor
  file_descriptor_lem fd h =
      let (o, h', e) = classes.made h in
      (
        o,
        jvm.set_int_field o classes.descriptor fd h',
        rw (file_descriptor, classes.class_found, classes.init_found, classes.descriptor_found, e)
            refl,
        classes.read_back o classes.descriptor fd h',
      )
